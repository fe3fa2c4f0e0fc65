-- ===== src/Deflate/Counts.antt =====
-- include/deflate.h: the counts that `inf_huff_build` starts from.

use qoot.Base.{
  ℕ, zero, suc, ◌+◌, ◌%◌, ◌<◌, ◌≤◌, ◌≡◌, refl, ap, sym, ◌∙◌, inl, inr, List, [], ◌∷◌, Bytes, length,
  get_or, set, replicate, sum, sum-set, All, get_or-set_same, get_or-set_other, length-set, arith,
  Bool-cases, ◌==◌, if◌then◌else◌,
}
use qoot.Deflate.{count_lengths}

-- How often a length is given.
abbrev pub occurrences : ℕ → Bytes → ℕ
occurrences j [] = 0
occurrences j (l ∷ lengths) = let rest = occurrences j lengths in if l == j then suc rest else rest

pub length-count_lengths :
    (count : List ℕ) (lengths : Bytes) → length (count_lengths count lengths) ≡ length count
unfolding count_lengths
length-count_lengths count [] = refl
length-count_lengths count (l ∷ lengths) =
    length-count_lengths (set count l _) lengths ∙ length-set count l _

-- The state of a count of `room` numbers: none of the counters wraps.
pub record IsCount (room : ℕ) (count : List ℕ) : Type 0 where
  pub lengths : length count ≡ 16
  pub small : sum count + room < 65536

get_or-sum : (xs : List ℕ) (i : ℕ) → get_or xs i 0 ≤ sum xs
get_or-sum [] i = omega arith
get_or-sum (x ∷ xs) zero = omega arith
get_or-sum (x ∷ xs) (suc i) = omega (arith, get_or-sum xs i)

IsCount-step :
    (count : List ℕ) (l : ℕ) {room : ℕ}
    → l < 16
    → IsCount (suc room) count
    → (IsCount room (set count l ((get_or count l 0 + 1) % 65536)))
      × ((get_or count l 0 + 1) % 65536 ≡ get_or count l 0 + 1)
      × (sum (set count l ((get_or count l 0 + 1) % 65536)) ≡ sum count + 1)
IsCount-step count l {room} lt w =
    let v = get_or count l 0 + 1 in
    let below : v % 65536 ≡ v = omega (arith, get_or-sum count l, w.small) in
    let total = sum-set count l v (omega (arith, w.lengths)) in
    let sums : sum (set count l v) ≡ sum count + 1 = omega arith in
    rw below (
      record { lengths = length-set count l v ∙ w.lengths; small = omega (arith, w.small) },
      refl,
      sums,
    )

-- `count[j]` counts the symbols of length j.
pub get_or-count_lengths :
    (count : List ℕ) (lengths : Bytes) (j : ℕ)
    → All (λ l. l < 16) lengths
    → IsCount (length lengths) count
    → (get_or (count_lengths count lengths) j 0 ≡ get_or count j 0 + occurrences j lengths)
      × (sum (count_lengths count lengths) ≡ sum count + length lengths)
unfolding count_lengths
get_or-count_lengths count [] j small w = (omega arith, omega arith)
get_or-count_lengths count (l ∷ lengths) j small w =
    let v = (get_or count l 0 + 1) % 65536 in
    let (w', exact, sums) = IsCount-step count l {room = length lengths} small.0 w in
    let rest = get_or-count_lengths (set count l v) lengths j small.1 w' in
    elim (Bool-cases (l == j)) [
      | inl same ↦
          let e : l ≡ j = ground arith in
          let here = get_or-set_same count l v 0 (omega (arith, w.lengths, small.0)) in
          let there : get_or (set count l v) j 0 ≡ v =
            ap (λ i. get_or (set count l v) i 0) (sym e) ∙ here in
          let old : get_or count l 0 ≡ get_or count j 0 = ap (λ i. get_or count i 0) e in
          (
            rw (same, if◌then◌else◌) (omega (arith, rest.0, there, exact, old)),
            omega (arith, rest.1, sums),
          )
      | inr differ ↦
          let other = get_or-set_other count l j v 0 (ground arith) in
          (rw (differ, if◌then◌else◌) (omega (arith, rest.0, other)), omega (arith, rest.1, sums))
    ]

-- The counts that the build starts from.
pub zero_counts : (room : ℕ) → room < 65536 → IsCount room (replicate 16 0)
zero_counts room h = record { lengths = refl; small = omega arith }
