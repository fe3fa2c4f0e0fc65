-- ===== src/Streams/Translate.antt =====
-- tools/tr.c: the tables, and what is written.
pub mod Mapped
use qoot.Base.{
  ℕ, zero, suc, ◌+◌, ◌-◌, Bool, true, false, [], ◌∷◌, ◌++◌, Option, none, some, Bytes, length,
  replicate, set, get_or, map, ltb, ◌==◌, if◌then◌else◌,
}
use qoot.Io.{Reader}
use qoot.Streams.{read_bytes}

-- `for (int i = 0; i < 256; i++) table[i] = (unsigned char)i;`, from `i` on.
unfoldable pub identity_from : ℕ → ℕ → Bytes
identity_from i zero = []
identity_from i (suc left) = i ∷ identity_from (suc i) left

-- The loop over `set1` from place `i` on.
unfoldable pub table_loop : Bytes → ℕ → Bytes → Bytes → Bytes
table_loop set2 i [] table = table
table_loop set2 i (c ∷ set1) table =
    let l2 = length set2 in
    let j = if ltb i l2 then i else l2 - 1 in
    table_loop set2 (suc i) set1 (set table c (get_or set2 j 0))

-- `none` where `set2[l2 - 1]` lies before an empty `set2`.
unfoldable pub build_table : Bytes → Option Bytes → Option Bytes
unfolding identity_from table_loop
build_table set1 none = some (identity_from 0 256)
build_table [] (some []) = some (identity_from 0 256)
build_table (c ∷ set1) (some []) = none
build_table set1 (some (x ∷ set2)) = some (table_loop (x ∷ set2) 0 set1 (identity_from 0 256))

unfoldable pub del_loop : Bytes → Bytes → Bytes
del_loop [] del_set = del_set
del_loop (c ∷ set1) del_set = del_loop set1 (set del_set c 1)

module _ (k : Reader) (f : ℕ) (stdin : k.State) where
  -- What is written with `-d`.
  unfoldable pub tr_delete : Bytes → Bytes
  unfolding del_loop
  tr_delete set1 =
      let del_set = del_loop set1 (replicate 256 0) in
      read_bytes k (λ out c. if get_or del_set c 0 == 0 then out ++ c ∷ [] else out) 4096 f stdin []

  -- What is written without it.
  unfoldable pub tr_translate : Bytes → Option Bytes → Option Bytes
  unfolding build_table
  tr_translate set1 set2 = elim (build_table set1 set2) as (λ _. Option Bytes) [
    | none ↦ none
    | some table ↦ some (read_bytes k (λ out c. out ++ get_or table c 0 ∷ []) 4096 f stdin [])
  ]
