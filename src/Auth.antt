-- ===== src/Auth.antt =====
-- include/auth.h: who may use sudo. The two files are read through `Reader`s; `conf` and `passwd`
-- stand for what `sys_open` gave for /etc/qemt.conf and /etc/passwd, `none` being a failure.
-- `junk` is what the uninitialised array `trimmed` holds, `name_junk` what `username` holds.
pub mod Grants
pub mod Config
use qoot.Base.{
  ℕ, zero, suc, ◌+◌, ◌-◌, Bool, true, false, ◌&&◌, ◌||◌, List, [], ◌∷◌, Option, none, some, Bytes,
  codes, drop, take, get_or, set, ◌==◌, if◌then◌else◌,
}
use qoot.Io.{Reader, read_lines}
use qoot.Io.Passwd.{uid_to_name}
use qoot.Str.{cstr, is_space, peek, skip_space, starts_with, str_eq, str_len, str_ncpy}

-- `while (len > 0 && is_space(trimmed[len - 1])) trimmed[--len] = '\0';`
unfoldable pub trim_end : ℕ → Bytes → Bytes
unfolding is_space
trim_end zero s = []
trim_end (suc n) s =
    let less = trim_end n s in if is_space (get_or s n 0) then less else take (suc n) s

-- The tests of `is_user_authorized` on a trimmed line.
unfoldable pub line_authorizes : Bytes → Bytes → Bool
line_authorizes username trimmed =
    if str_eq trimmed (codes "ALL") || starts_with trimmed (codes "ALL ")
    then true
    else if str_eq trimmed username
    then true
    else if starts_with trimmed username
    then (let next = get_or trimmed (str_len username) 0 in next == 0 || next == 32 || next == 9)
    else false

-- `*l == '#' || *l == '\0'`
abbrev pub is_skipped : Bytes → Bool
is_skipped l = peek l == b'#' || peek l == 0

-- The copy of a line that is trimmed and tested.
unfoldable pub trimmed_line : Bytes → Bytes → Bytes
trimmed_line junk l =
    let trimmed = cstr (str_ncpy junk l 1023) in trim_end (str_len trimmed) trimmed

unfoldable pub authorized_in : Bytes → Bytes → List Bytes → Bool
authorized_in junk username [] = false
authorized_in junk username (line ∷ lines) =
    let l = skip_space (cstr line) in
    let later = authorized_in junk username lines in
    if is_skipped l
    then later
    else if line_authorizes username (trimmed_line junk l)
    then true
    else later

-- `starts_with(l, who)`, white space, and then NOPASSWD.
unfoldable pub has_nopasswd : Bytes → Bytes → Bool
has_nopasswd who l =
    if starts_with l who
    then (let after = drop (str_len who) l in
        is_space (peek after) && starts_with (skip_space after) (codes "NOPASSWD"))
    else false

unfoldable pub nopasswd_in : Bytes → List Bytes → Bool
nopasswd_in username [] = false
nopasswd_in username (line ∷ lines) =
    let l = skip_space (cstr line) in
    let later = nopasswd_in username lines in
    if is_skipped l
    then later
    else if has_nopasswd username l || has_nopasswd (codes "ALL") l
    then true
    else later

module _ (k : Reader) (f : ℕ) (name_junk : Bytes) where
  -- `username[0] = '\0'; uid_to_name(uid, username, MAX_USERNAME);`
  unfoldable pub user_name : Option k.State → ℕ → Bytes
  user_name passwd uid = cstr (uid_to_name k f passwd uid (set name_junk 0 0) 64).1

  unfoldable pub is_user_authorized : Bytes → Option k.State → Option k.State → ℕ → Bool
  is_user_authorized junk none passwd uid = uid == 0
  is_user_authorized junk (some conf) passwd uid =
      let username = user_name passwd uid in
      if uid == 0
      then true
      else if peek username == 0
      then false
      else authorized_in junk username (read_lines k f conf 1024)

  unfoldable pub check_nopasswd : Option k.State → Option k.State → ℕ → Bool
  check_nopasswd none passwd uid = false
  check_nopasswd (some conf) passwd uid =
      let username = user_name passwd uid in
      if peek username == 0 then false else nopasswd_in username (read_lines k f conf 1024)
