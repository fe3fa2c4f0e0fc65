-- ===== src/Sudo.antt =====
-- tools/sudo.c: from the arguments to the command that is run, or the reason why none is. The
-- messages are not modelled.
pub mod Environment
pub mod Safety
use qoot.Base.{
  ℕ, zero, suc, ◌+◌, ◌-◌, ◌<◌, Bool, true, false, not, ◌&&◌, ◌||◌, List, [], ◌∷◌, ◌++◌, Option,
  none, some, Bytes, codes, length, take, drop, ltb, leb, ◌==◌, if◌then◌else◌,
}
use qoot.Base.Int.{ℤ, pos, gtb}
use qoot.Auth.{is_user_authorized, check_nopasswd}
use qoot.Io.{Reader}
use qoot.Io.Passwd.{name_to_uid}
use qoot.Io.Password.{read_password}
use qoot.Str.{peek, str_chr, str_eq}
use qoot.Sudo.Environment.{build_env, target_group}

pub data Failure : Type 0 where
  not_setuid usage missing_user unknown_user unknown_option not_authorized not_authenticated :
      Failure
  no_command not_found setgid_failed setuid_failed : Failure

-- `undefined` stands for what follows once a path has been written over the end of `cmd_path`.
pub data Attempt (A : Type 0) : Type 0 where
  refused : Failure → Attempt A
  undefined : Attempt A
  done : A → Attempt A

abbrev pub ◌>>=◌ : {A B : Type 0} → Attempt A → (A → Attempt B) → Attempt B
refused why >>= next = refused why
undefined >>= next = undefined
done a >>= next = next a

abbrev pub ◌>>◌ : {A B : Type 0} → Attempt A → Attempt B → Attempt B
◌>>◌ {A} first next = first >>= λ (a : A). next

infixl 5 ◌>>=◌ ◌>>◌
-- An early return, unless the test holds.
abbrev pub require : Bool → Failure → Attempt Bool
require test why = if test then done true else refused why

-- Where sudo runs: the caller, what opening its files gives, `sys_access(path, X_OK) == 0`, and
-- whether the changes of group and user succeed.
pub record World (k : Reader) : Type 0 where
  pub uid : ℕ
  pub euid : ℕ
  pub conf : Option k.State
  pub passwd : Option k.State
  pub tty : Option k.State
  pub executable : Bytes → Bool
  pub setgid_works : ℕ → Bool
  pub setuid_works : ℕ → Bool

-- What `sys_execve` is called with, and the identity that it is called under.
pub record Exec : Type 0 where
  pub path : Bytes
  pub argv : List Bytes
  pub envp : List Bytes
  pub as_uid : ℕ
  pub as_gid : ℕ

-- What the loop over the options finds: the words from `cmd_start` on.
pub record Options : Type 0 where
  pub words : List Bytes
  pub spawn_shell : Bool
  pub target_uid : ℕ

abbrev pub search_path : List Bytes
search_path =
    codes "/usr/local/sbin"
    ∷ codes "/usr/local/bin"
    ∷ codes "/usr/sbin"
    ∷ codes "/usr/bin"
    ∷ codes "/sbin"
    ∷ codes "/bin"
    ∷ []

-- The loop over `paths`. `str_cat` has no bound: a path of 4096 bytes or more is written over the
-- end of the array, and what the code does from then on is not determined.
unfoldable pub find_along : (Bytes → Bool) → Bytes → List Bytes → Attempt Bytes
find_along executable cmd [] = refused not_found
find_along executable cmd (dir ∷ paths) =
    let result = dir ++ b'/' ∷ cmd in
    let later = find_along executable cmd paths in
    if leb 4096 (length result) then undefined else if executable result then done result else later

unfoldable pub find_in_path : (Bytes → Bool) → Bytes → Attempt Bytes
unfolding str_chr find_along
find_in_path executable cmd = elim (str_chr cmd b'/') as (λ _. Attempt Bytes) [
  | some _ ↦
      let result = take 4095 cmd in if executable result then done result else refused not_found
  | none ↦ find_along executable cmd search_path
]

-- The loop over the options, from the words at `i` on; `name_to_uid` looks the name of `-u` up.
unfoldable pub parse_options : (Bytes → Option ℕ) → List Bytes → Options → Attempt Options
parse_options lookup [] o = done o
parse_options lookup (a ∷ []) o =
    if not (peek a == b'-')
    then done (record o { words = a ∷ [] })
    else if str_eq a (codes "-s")
    then done (record o { words = []; spawn_shell = true })
    else if str_eq a (codes "-u")
    then refused missing_user
    else refused unknown_option
parse_options lookup (a ∷ b ∷ args) o =
    let after_s =
      parse_options lookup (b ∷ args) (record o { words = b ∷ args; spawn_shell = true }) in
    let after_u =
      λ (u : ℕ). parse_options lookup args (record o { words = args; target_uid = u }) in
    if not (peek a == b'-')
    then done (record o { words = a ∷ b ∷ args })
    else if str_eq a (codes "-s")
    then after_s
    else if str_eq a (codes "-u")
    then elim (lookup b) as (λ _. Attempt Options) [
      | none ↦ refused unknown_user
      | some u ↦ after_u u
    ]
    else refused unknown_option

-- The path and the arguments of the command.
unfoldable pub command : (Bytes → Bool) → Options → Attempt (Bytes × List Bytes)
unfolding find_in_path
command executable o =
    if o.spawn_shell
    then done (codes "/bin/sh", codes "/bin/sh" ∷ [])
    else elim o.words as (λ _. Attempt (Bytes × List Bytes)) [
      | [] ↦ refused no_command
      | cmd ∷ args ↦ find_in_path executable cmd >>= λ path. done (path, take 254 (cmd ∷ args))
    ]

-- `k` reads the files, `f` bounds the lines of a file, and `junk` and `name_junk` are what two
-- arrays of `is_user_authorized` hold before they are written.
module _ (k : Reader) (f : ℕ) (name_junk junk : Bytes) where
  -- `real_uid == 0 || check_nopasswd(real_uid)`, or else `pw_len > 0`.
  unfoldable pub authenticated : World k → Bool
  authenticated w =
      w.uid == 0
      || check_nopasswd k f name_junk w.conf w.passwd w.uid
      || gtb (read_password k w.tty 256).0 (pos 0)

  -- `sudo_main` behind the options that only print; `args` are the words behind the program's name.
  unfoldable pub sudo_main : World k → List Bytes → Attempt Exec
  unfolding authenticated command parse_options
  sudo_main w args = do
    require (w.euid == 0) not_setuid
    require (ltb 0 (length args)) usage
    o ←
        parse_options (name_to_uid k f w.passwd) args
          (record { words = args; spawn_shell = false; target_uid = 0 })
    require (is_user_authorized k f name_junk junk w.conf w.passwd w.uid) not_authorized
    require (authenticated w) not_authenticated
    cmd ← command w.executable o
    let gid = target_group k f w.passwd o.target_uid
    require (w.setgid_works gid) setgid_failed
    require (w.setuid_works o.target_uid) setuid_failed
    done (record {
      path = cmd.0;
      argv = cmd.1;
      envp = build_env k f w.passwd o.target_uid;
      as_uid = o.target_uid;
      as_gid = gid;
    })
