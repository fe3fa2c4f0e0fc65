-- ===== src/Sudo/Environment.antt =====
-- tools/sudo.c: the environment and the group of the target user, from /etc/passwd.
use qoot.Base.{ℕ, List, [], ◌∷◌, ◌++◌, Option, none, some, Bytes, codes, ◌==◌, if◌then◌else◌}
use qoot.Io.{Reader, read_lines}
use qoot.Io.Passwd.{before_colon}
use qoot.Str.{cstr}
use qoot.Str.Parse.{str_to_uint}

infixl 5 ◌>>=◌
abbrev ◌>>=◌ : {A B : Type 0} → Option A → (A → Option B) → Option B
none >>= f = none
some a >>= f = f a

-- A line with a colon behind each of its six first fields: the number, the name and the home.
unfoldable pub home_entry : Bytes → Option (ℕ × Bytes × Bytes)
unfolding before_colon str_to_uint
home_entry line = do
  (uname, r) ← before_colon line
  (password, id) ← before_colon r
  (uid, r1) ← before_colon id
  (gid, r2) ← before_colon r1
  (gecos, r3) ← before_colon r2
  (home, r4) ← before_colon r3
  some (str_to_uint id, uname, home)

-- The name and the home of the first such line with the number.
unfoldable pub find_home : ℕ → List Bytes → Option (Bytes × Bytes)
unfolding home_entry
find_home uid [] = none
find_home uid (line ∷ lines) =
    let later = find_home uid lines in
    elim (home_entry (cstr line)) as (λ _. Option (Bytes × Bytes)) [
      | none ↦ later
      | some (fuid, uname, home) ↦ if fuid == uid then some (uname, home) else later
    ]

-- A line with a colon behind each of its first three fields: the number and the group.
unfoldable pub group_entry : Bytes → Option (ℕ × ℕ)
unfolding before_colon str_to_uint
group_entry line = do
  (uname, r) ← before_colon line
  (password, id) ← before_colon r
  (uid, gid) ← before_colon id
  some (str_to_uint id, str_to_uint gid)

-- The group in the first such line with the number; 0 where there is none.
unfoldable pub find_group : ℕ → List Bytes → ℕ
unfolding group_entry
find_group uid [] = 0
find_group uid (line ∷ lines) =
    let later = find_group uid lines in
    elim (group_entry (cstr line)) as (λ _. ℕ) [
      | none ↦ later
      | some (fuid, gid) ↦ if fuid == uid then gid else later
    ]

-- The three variables of the user.
unfoldable pub user_env : Bytes → Bytes → List Bytes
user_env uname home =
    (codes "HOME=" ++ home) ∷ (codes "LOGNAME=" ++ uname) ∷ (codes "USER=" ++ uname) ∷ []

module _ (k : Reader) (f : ℕ) where
  unfoldable pub user_part : Option k.State → ℕ → List Bytes
  unfolding find_home user_env
  user_part none uid =
      if uid == 0
      then user_env (codes "root") (codes "/root")
      else user_env (codes "nobody") (codes "/")
  user_part (some fd) uid =
      if uid == 0
      then user_env (codes "root") (codes "/root")
      else elim (find_home uid (read_lines k f fd 1024)) as (λ _. List Bytes) [
        | none ↦ user_env (codes "nobody") (codes "/")
        | some (uname, home) ↦ user_env uname home
      ]

  unfoldable pub build_env : Option k.State → ℕ → List Bytes
  unfolding user_part
  build_env passwd uid =
      codes "PATH=/usr/local/sbin:/usr/local/bin:/usr/sbin:/usr/bin:/sbin:/bin"
      ∷ codes "SHELL=/bin/sh"
      ∷ (user_part passwd uid ++ codes "TERM=xterm" ∷ [])

  -- `target_gid`
  unfoldable pub target_group : Option k.State → ℕ → ℕ
  unfolding find_group
  target_group none uid = 0
  target_group (some fd) uid = if uid == 0 then 0 else find_group uid (read_lines k f fd 1024)
