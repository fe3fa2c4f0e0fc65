-- ===== src/Io/Passwd.antt =====
-- include/io.h: the searches of /etc/passwd and /etc/group. `opened` is what `sys_open` gave, `none`
-- being a negative descriptor; `f` bounds the number of lines read.
pub mod Laws
use qoot.Base.{ℕ, ◌+◌, ◌-◌, ◌==◌, List, [], ◌∷◌, Option, none, some, Bytes, set, if◌then◌else◌}
use qoot.Io.{Reader, read_lines}
use qoot.Str.{cstr, str_eq, str_ncpy}
use qoot.Str.Parse.{str_to_uint}

infixl 5 ◌>>=◌
abbrev ◌>>=◌ : {A B : Type 0} → Option A → (A → Option B) → Option B
none >>= f = none
some a >>= f = f a

-- `while (*p && *p != ':') p++; if (*p != ':') continue;`: the text before the colon and behind it.
unfoldable pub before_colon : Bytes → Option (Bytes × Bytes)
before_colon [] = none
before_colon (c ∷ p) =
    let later = before_colon p >>= λ (u, r). some (c ∷ u, r) in
    if c == b':' then some ([], p) else later

-- The name of an entry, and the text from its third field on.
unfoldable pub entry : Bytes → Option (Bytes × Bytes)
unfolding before_colon
entry line = do (name, r) ← before_colon line; (password, id) ← before_colon r; some (name, id)

-- The name in the first line with that number; a line with fewer fields is skipped.
unfoldable pub find_name : ℕ → List Bytes → Option Bytes
unfolding entry cstr str_to_uint
find_name id [] = none
find_name id (line ∷ lines) =
    let later = find_name id lines in
    elim (entry (cstr line)) [
      | none ↦ later
      | some (name, number) ↦ if str_to_uint number == id then some name else later
    ]

-- The number in the first line with that name.
unfoldable pub find_id : Bytes → List Bytes → Option ℕ
unfolding entry cstr str_to_uint str_eq
find_id name [] = none
find_id name (line ∷ lines) =
    let later = find_id name lines in
    elim (entry (cstr line)) [
      | none ↦ later
      | some (u, number) ↦ if str_eq u name then some (str_to_uint number) else later
    ]

-- `name` is the caller's array: the result, and the array afterwards.
unfoldable pub store_name : Option Bytes → Bytes → ℕ → ℕ × Bytes
unfolding str_ncpy
store_name none name name_max = (0, name)
store_name (some u) name name_max = (1, set (str_ncpy name u (name_max - 1)) (name_max - 1) 0)

module _ (k : Reader) (f : ℕ) where
  unfoldable pub uid_to_name : Option k.State → ℕ → Bytes → ℕ → ℕ × Bytes
  unfolding find_name store_name
  uid_to_name none uid name name_max = (0, name)
  uid_to_name (some fd) uid name name_max =
      store_name (find_name uid (read_lines k f fd 1024)) name name_max

  unfoldable pub gid_to_name : Option k.State → ℕ → Bytes → ℕ → ℕ × Bytes
  unfolding find_name store_name
  gid_to_name none gid name name_max = (0, name)
  gid_to_name (some fd) gid name name_max =
      store_name (find_name gid (read_lines k f fd 1024)) name name_max

  -- `none` is the result -1.
  unfoldable pub name_to_uid : Option k.State → Bytes → Option ℕ
  unfolding find_id
  name_to_uid none name = none
  name_to_uid (some fd) name = find_id name (read_lines k f fd 1024)

  unfoldable pub name_to_gid : Option k.State → Bytes → Option ℕ
  unfolding find_id
  name_to_gid none name = none
  name_to_gid (some fd) name = find_id name (read_lines k f fd 1024)
