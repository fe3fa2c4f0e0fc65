-- ===== src/Streams/Translate/Mapped.antt =====
-- tools/tr.c: which byte takes the place of which.
use qoot.Base.{
  ℕ, zero, suc, ◌+◌, ◌-◌, ◌<◌, ◌≡◌, refl, ap, sym, ◌∙◌, inl, inr, Bool, true, false, not, [], ◌∷◌,
  ◌++◌, append_assoc, append-nil, Option, none, some, Bytes, length, length-set, replicate,
  length-replicate, get_or-set_same, get_or-set_other, set, get_or, map, ltb, ◌==◌, All, arith,
  Bool-cases, ==_iff, eq→==, All-imply, if◌then◌else◌,
}
use qoot.Io.{Reader, Delivers}
use qoot.Streams.{read_bytes-foldl, foldl}
use qoot.Streams.Translate.{identity_from, table_loop, del_loop, tr_delete, tr_translate}

abbrev pub AreBytes : Bytes → Type 0
AreBytes = All (λ c. c < 256)

-- The last place of a byte in `set1`, from place `i` on.
abbrev pub last_place : ℕ → ℕ → Bytes → Option ℕ
last_place c i [] = none
last_place c i (x ∷ set1) = elim (last_place c (suc i) set1) [
  | some j ↦ some j
  | none ↦ if x == c then some i else none
]

-- The byte of `set2` at a place, or its last one.
abbrev pub at_or_last : Bytes → ℕ → ℕ
at_or_last set2 i = get_or set2 (if ltb i (length set2) then i else length set2 - 1) 0

-- A byte of `set1` becomes the one of `set2` at its last place; any other stays.
unfoldable pub translated : Bytes → Bytes → ℕ → ℕ
translated set1 set2 c = elim (last_place c 0 set1) [ some i ↦ at_or_last set2 i | none ↦ c ]

abbrev pub member : ℕ → Bytes → Bool
member c [] = false
member c (x ∷ set1) = if x == c then true else member c set1

-- The bytes of a text that are not in a set.
abbrev pub without : Bytes → Bytes → Bytes
without set1 [] = []
without set1 (c ∷ t) = if member c set1 then without set1 t else c ∷ without set1 t

placed : Bytes → Option ℕ → ℕ → ℕ
placed set2 none other = other
placed set2 (some i) other = at_or_last set2 i

table_loop_lem :
    (set2 : Bytes) (c i : ℕ) (set1 table : Bytes)
    → c < length table
    → get_or (table_loop set2 i set1 table) c 0
      ≡ placed set2 (last_place c i set1) (get_or table c 0)
unfolding table_loop placed
table_loop_lem set2 c i [] table h = refl
table_loop_lem set2 c i (x ∷ set1) table h =
    let v = at_or_last set2 i in
    let stored = set table x v in
    table_loop_lem set2 c (suc i) set1 stored (omega (arith, length-set table x v))
    ∙ last_or (last_place c (suc i) set1)
  where
    last_or :
        (later : Option ℕ)
        → placed set2 later (get_or (set table x (at_or_last set2 i)) c 0)
          ≡ placed set2
              (elim later [ some j ↦ some j | none ↦ if x == c then some i else none ])
              (get_or table c 0)
    last_or (some j) = refl
    last_or none = elim (Bool-cases (x == c)) [
      | inl e ↦
          let same : x ≡ c = (==_iff x c).0 e in
          rw e (
            ap (λ y. get_or (set table y (at_or_last set2 i)) c 0) same
            ∙ get_or-set_same table c (at_or_last set2 i) 0 h)
      | inr e ↦ rw e (get_or-set_other table x c (at_or_last set2 i) 0 (λ q. cc (eq→== x c q)))
    ]

length-identity_from : (i n : ℕ) → length (identity_from i n) ≡ n
unfolding identity_from
length-identity_from i zero = refl
length-identity_from i (suc n) = ap suc (length-identity_from (suc i) n)

identity_lem : (i n c : ℕ) → c < n → get_or (identity_from i n) c 0 ≡ i + c
unfolding identity_from
identity_lem i zero c h = elim h [ ]
identity_lem i (suc n) zero h = omega arith
identity_lem i (suc n) (suc c) h = omega (arith, identity_lem (suc i) n c (omega arith))

del_loop_lem :
    (c : ℕ) (set1 del_set : Bytes)
    → c < length del_set
    → (get_or (del_loop set1 del_set) c 0 == 0)
      ≡ (if member c set1 then false else get_or del_set c 0 == 0)
unfolding del_loop
del_loop_lem c [] del_set h = refl
del_loop_lem c (x ∷ set1) del_set h =
    del_loop_lem c set1 (set del_set x 1) (omega (arith, length-set del_set x 1))
    ∙ (elim (Bool-cases (x == c)) [
      | inl e ↦
          let same : x ≡ c = (==_iff x c).0 e in
          let stored : get_or (set del_set x 1) c 0 ≡ 1 =
            ap (λ y. get_or (set del_set y 1) c 0) same ∙ get_or-set_same del_set c 1 0 h in
          rw (e, stored) (elim (Bool-cases (member c set1)) [ inl m ↦ rw m | inr m ↦ rw m ])
      | inr e ↦ rw (e, get_or-set_other del_set x c 1 0 (λ q. cc (eq→== x c q)))
    ])

get_or-replicate : (n c v : ℕ) → get_or (replicate n v) c v ≡ v
get_or-replicate zero c v = refl
get_or-replicate (suc n) zero v = refl
get_or-replicate (suc n) (suc c) v = get_or-replicate n c v

-- A loop that writes a byte for each one, and one that writes some of them.
written-map :
    (g h : ℕ → ℕ) (t out : Bytes)
    → All (λ c. g c ≡ h c) t
    → foldl (λ (o : Bytes) (c : ℕ). o ++ g c ∷ []) out t ≡ out ++ map h t
written-map g h [] out same = sym (append-nil out)
written-map g h (c ∷ t) out same =
    written-map g h t (out ++ g c ∷ []) same.1
    ∙ append_assoc out (g c ∷ []) (map h t)
    ∙ ap (λ x. out ++ x ∷ map h t) same.0

written-without :
    (g : ℕ → Bool) (set1 t out : Bytes)
    → All (λ c. g c ≡ not (member c set1)) t
    → foldl (λ (o : Bytes) (c : ℕ). if g c then o ++ c ∷ [] else o) out t ≡ out ++ without set1 t
written-without g set1 [] out same = sym (append-nil out)
written-without g set1 (c ∷ t) out same = elim (Bool-cases (member c set1)) [
  | inl m ↦ rw (same.0, m) (written-without g set1 t out same.1)
  | inr m ↦
      rw (same.0, m)
        (written-without g set1 t (out ++ c ∷ []) same.1
          ∙ append_assoc out (c ∷ []) (without set1 t))
]

module _ (k : Reader) (d : Delivers k) where
  -- In whatever pieces the input comes, tr -d writes the bytes of it that are not in the set.
  pub tr_delete-without :
      (f : ℕ) (stdin : k.State) (set1 : Bytes)
      → length (d.content stdin) < f
      → AreBytes (d.content stdin)
      → tr_delete k f stdin set1 ≡ without set1 (d.content stdin)
  unfolding tr_delete
  tr_delete-without f stdin set1 enough bytes =
      read_bytes-foldl k d _ 4096 f stdin [] (omega arith) enough
      ∙ written-without (λ c. get_or (del_loop set1 (replicate 256 0)) c 0 == 0) set1
          (d.content stdin) []
          (All-imply {P = λ c. c < 256}
            {Q = λ c. (get_or (del_loop set1 (replicate 256 0)) c 0 == 0) ≡ not (member c set1)}
            (d.content stdin) kept bytes)
    where
      kept :
          (c : ℕ)
          → c < 256
          → (get_or (del_loop set1 (replicate 256 0)) c 0 == 0) ≡ not (member c set1)
      kept c small =
          let zero_at : get_or (replicate 256 0) c 0 ≡ 0 = get_or-replicate 256 c 0 in
          del_loop_lem c set1 (replicate 256 0) (omega (arith, length-replicate {A = ℕ} 256 0))
          ∙ rw zero_at (elim (Bool-cases (member c set1)) [ inl m ↦ rw m | inr m ↦ rw m ])

  -- Without -d, and with a second set that is not empty, tr replaces each byte of the first set by
  -- the one of the second at its last place, or by the last one of a shorter second set.
  pub tr_translate-translated :
      (f : ℕ) (stdin : k.State) (set1 : Bytes) (x : ℕ) (set2 : Bytes)
      → length (d.content stdin) < f
      → AreBytes (d.content stdin)
      → tr_translate k f stdin set1 (some (x ∷ set2))
        ≡ some (map (translated set1 (x ∷ set2)) (d.content stdin))
  unfolding tr_translate translated placed
  tr_translate-translated f stdin set1 x set2 enough bytes =
      let table = table_loop (x ∷ set2) 0 set1 (identity_from 0 256) in
      ap some (
        read_bytes-foldl k d _ 4096 f stdin [] (omega arith) enough
        ∙ written-map (λ c. get_or table c 0) (translated set1 (x ∷ set2)) (d.content stdin) []
            (All-imply {P = λ c. c < 256} {Q = λ c. get_or table c 0 ≡ translated set1 (x ∷ set2) c}
              (d.content stdin) moved bytes))
    where
      by_place :
          (o : Option ℕ) (c : ℕ)
          → placed (x ∷ set2) o c ≡ elim o [ some i ↦ at_or_last (x ∷ set2) i | none ↦ c ]
      by_place none c = refl
      by_place (some i) c = refl

      moved :
          (c : ℕ)
          → c < 256
          → get_or (table_loop (x ∷ set2) 0 set1 (identity_from 0 256)) c 0
            ≡ translated set1 (x ∷ set2) c
      moved c small =
          table_loop_lem (x ∷ set2) c 0 set1 (identity_from 0 256)
            (omega (arith, length-identity_from 0 256))
          ∙ ap (placed (x ∷ set2) (last_place c 0 set1)) (identity_lem 0 256 c small ∙ omega arith)
          ∙ by_place (last_place c 0 set1) c
