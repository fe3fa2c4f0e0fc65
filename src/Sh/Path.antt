-- ===== src/Sh/Path.antt =====
-- tools/sh.c: `find_in_path`. The byte that `str_ncpy` clears behind the array is not modelled.
pub mod First
use qoot.Base.{
  ℕ, zero, suc, Bool, true, false, List, [], ◌∷◌, ◌++◌, Option, none, some, Bytes, codes, length,
  take, drop, leb, ◌==◌, if◌then◌else◌,
}
use qoot.Sh.Environment.{Environment, get_env}
use qoot.Sh.Words.{pieces}
use qoot.Str.{peek, str_chr}

-- `overrun`: a path of 4096 bytes or more has been written over the end of the array by `str_cat`,
-- which has no bound, or fills it with no terminator. What the code does from then on is not
-- determined.
pub data Lookup : Type 0 where
  found : Bytes → Lookup
  missing overrun : Lookup

-- The loop over the directories: the first that holds the command.
unfoldable pub search_dirs : (Bytes → Bool) → Bytes → List Bytes → Lookup
search_dirs executable cmd [] = missing
search_dirs executable cmd (dir ∷ dirs) =
    let out = dir ++ b'/' ∷ cmd in
    let later = search_dirs executable cmd dirs in
    if leb 4096 (length out) then overrun else if executable out then found out else later

-- The directories that are searched.
unfoldable pub search_list : Environment → List Bytes
search_list env =
    let path : Bytes = elim (get_env env (codes "PATH")) as (λ _. Bytes) [
      | some path ↦ path
      | none ↦ codes "/usr/local/sbin:/usr/local/bin:/usr/sbin:/usr/bin:/sbin:/bin"
    ] in
    let pcopy = take 4095 path in pieces b':' (length pcopy) pcopy

unfoldable pub find_in_path : (Bytes → Bool) → Environment → Bytes → Lookup
find_in_path executable env cmd = elim (str_chr cmd b'/') as (λ _. Lookup) [
  | some _ ↦
      if executable cmd then (if leb 4096 (length cmd) then overrun else found cmd) else missing
  | none ↦ search_dirs executable cmd (search_list env)
]
