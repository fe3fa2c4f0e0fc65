-- ===== src/Str/Places.antt =====
-- include/string.h: the digit loops of the conversions, for any base and any digit parser.
use mathlib.Core.List.{reverse-cons}
use native.Mathlib.Nat.{pow-zero, pow-suc, div-lt_self, div-lt_iff_lt-mul, mod-lt}
use qoot.Base.{
  ℕ, zero, suc, ◌+◌, ◌*◌, ◌/◌, ◌%◌, ◌^◌, ◌<◌, ◌≤◌, ◌≡◌, inl, inr, ap, ◌∙◌, [], ◌∷◌, ◌++◌,
  append_assoc, reverse, Bytes, length, length-reverse, All, All-reverse, arith, ◌==◌, Bool-cases,
}
use qoot.Str.Digits.{store_digits, to_text}

-- A parser's loop that reads one digit of a number below `limit` as the next place of the number.
abbrev pub Reads : (Bytes → ℕ → ℕ) → (ℕ → ℕ) → ℕ → ℕ → Type 0
Reads loop digit base limit =
    (rest : Bytes) (q d : ℕ)
    → d < base
    → q * base + d < limit
    → loop (digit d ∷ rest) q ≡ loop rest (q * base + d)

module _ (loop : Bytes → ℕ → ℕ) (digit : ℕ → ℕ) (base limit : ℕ) (two : 2 ≤ base)
    (reads : Reads loop digit base limit) where
  -- The stored digits, read from the first to the last, give the number back.
  loop-store_digits :
      (f v : ℕ) (rest : Bytes)
      → v ≤ f
      → v < limit
      → loop (reverse (store_digits digit base f v) ++ rest) 0 ≡ loop rest v
  unfolding store_digits
  loop-store_digits zero v rest fuel fits = let none : v ≡ 0 = omega arith in rw none
  loop-store_digits (suc f) v rest fuel fits = elim (Bool-cases (v == 0)) [
    | inl done ↦ let none : v ≡ 0 = ground arith in rw (done, none)
    | inr more ↦
        let d = digit (v % base) in
        let smaller : v / base < v = div-lt_self (ground arith) two in
        let place : v / base * base + v % base ≡ v = grind arith in
        let before = reverse (store_digits digit base f (v / base)) in
        let last : reverse (d ∷ store_digits digit base f (v / base)) ++ rest ≡ before ++ d ∷ rest =
          ap (λ t. t ++ rest) (reverse-cons d (store_digits digit base f (v / base)))
          ∙ append_assoc before (d ∷ []) rest in
        rw (more, last)
          (loop-store_digits f (v / base) (d ∷ rest) (omega arith) (omega arith)
            ∙ reads rest (v / base) (v % base) (mod-lt v (omega arith)) (rw place fits)
            ∙ ap (loop rest) place)
  ]

module _ (digit : ℕ → ℕ) (base : ℕ) (two : 2 ≤ base) where
  length-store_digits : (k f v : ℕ) → v < base ^ k → length (store_digits digit base f v) ≤ k
  unfolding store_digits
  length-store_digits k zero v h = omega arith
  length-store_digits zero (suc f) v h =
      let none : v ≡ 0 = let one : v < 1 = rw pow-zero at h in omega arith in
      rw (none, store_digits) (omega arith)
  length-store_digits (suc k) (suc f) v h =
      let fits : v / base < base ^ k = (div-lt_iff_lt-mul (omega arith)).1 (rw pow-suc at h) in
      ground (arith, length-store_digits k f (v / base) fits)

-- A digit loop that stops at the end of `rest` keeps the number.
module _ (loop : Bytes → ℕ → ℕ) (digit : ℕ → ℕ) (base limit : ℕ) (two : 2 ≤ base)
    (reads : Reads loop digit base limit) (zero_digit : digit 0 ≡ b'0') where
  pub loop-to_text :
      (v : ℕ) (rest : Bytes) → v < limit → loop ((to_text digit base v).0 ++ rest) 0 ≡ loop rest v
  unfolding to_text
  loop-to_text v rest fits = elim (Bool-cases (v == 0)) [
    | inl done ↦
        let none : v ≡ 0 = ground arith in
        rw (none, to_text, ← zero_digit)
          (reads rest 0 0 (omega arith) (omega arith) ∙ ap (loop rest) (omega arith))
    | inr more ↦
        rw (more, to_text)
          (loop-store_digits loop digit base limit two reads v v rest (omega arith) fits)
  ]

module _ (digit : ℕ → ℕ) (base : ℕ) (two : 2 ≤ base) where
  pub length-to_text :
      (k v : ℕ)
      → 0 < k
      → v < base ^ k
      → (length (to_text digit base v).0 ≤ k)
        × ((to_text digit base v).1 ≡ length (to_text digit base v).0)
  unfolding to_text
  length-to_text k v some_place h =
      let tmp = store_digits digit base v v in
      ground (arith, length-store_digits digit base two k v v h, length-reverse tmp)

-- A property of every digit holds of every byte of the text.
module _ (P : ℕ → Type 0) (digit : ℕ → ℕ) (base : ℕ) (two : 2 ≤ base)
    (digits : (d : ℕ) → d < base → P (digit d)) where
  All-store_digits : (f v : ℕ) → All P (store_digits digit base f v)
  unfolding store_digits
  All-store_digits zero v = tt
  All-store_digits (suc f) v = elim (Bool-cases (v == 0)) [
    | inl done ↦ rw done tt
    | inr more ↦ rw more (digits (v % base) (mod-lt v (omega arith)), All-store_digits f (v / base))
  ]

  pub All-to_text : (v : ℕ) → P b'0' → All P (to_text digit base v).0
  unfolding to_text
  All-to_text v p = elim (Bool-cases (v == 0)) [
    | inl done ↦ rw (done, to_text) (p, tt)
    | inr more ↦ rw (more, to_text) (All-reverse P _ (All-store_digits v v))
  ]
