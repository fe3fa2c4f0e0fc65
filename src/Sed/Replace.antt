-- ===== src/Sed/Replace.antt =====
-- tools/sed.c: what a substitution means, and the rounds of `substitute_loop`.
use qoot.Base.{
  take_whole, ℕ, zero, suc, ◌+◌, ◌-◌, ◌<◌, ◌≤◌, ◌≡◌, ◌≢◌, inl, inr, refl, ap, sym, ◌∙◌, Bool, true,
  false, not, ◌||◌, [], ◌∷◌, ◌++◌, append-nil, append_assoc, none, some, Option-cases, Bytes,
  length, length-append, take, drop, if◌then◌else◌, arith,
}
use qoot.Str.{IsCString, str_len, str_str}
use qoot.Str.Search.{str_str_sound, str_str_complete}
use qoot.Sed.{put, substitute_loop}

-- The text occurs somewhere in the line.
abbrev pub Occurs : Bytes → Bytes → Type 0
Occurs find s = (p t : Bytes) × (s ≡ p ++ (find ++ t))

-- No occurrence in `u ++ find ++ v` begins before the one behind `u`.
abbrev pub IsFirst : Bytes → Bytes → Bytes → Type 0
IsFirst find u v = (p t : Bytes) → u ++ (find ++ v) ≡ p ++ (find ++ t) → length u ≤ length p

-- Every occurrence is replaced, from the left, the next one being sought behind the last.
pub data Replaced (find replace : Bytes) : Bytes → Bytes → Type 0 where
  rest : (s : Bytes) → ¬ Occurs find s → Replaced find replace s s
  one :
      (u v w : Bytes)
      → IsFirst find u v
      → Replaced find replace v w
      → Replaced find replace (u ++ (find ++ v)) (u ++ (replace ++ w))

pub str_len-length : (s : Bytes) → str_len s ≡ length s
unfolding str_len
str_len-length [] = refl
str_len-length (c ∷ s) = ap suc (str_len-length s)

drop-length : (p s : Bytes) → drop (length p) (p ++ s) ≡ s
drop-length [] s = refl
drop-length (c ∷ p) s = drop-length p s

take-length : (p s : Bytes) → take (length p) (p ++ s) ≡ p
take-length [] s = refl
take-length (c ∷ p) s = ap (◌∷◌ c) (take-length p s)

pub put_fits : (result s : Bytes) → length result + length s ≤ 4095 → put result s ≡ result ++ s
put_fits result s h = ap (◌++◌ result) (take_whole (4095 - length result) s (omega arith))

-- `str_str` finds the first occurrence.
str_str_first :
    (find u v : Bytes)
    → IsCString find
    → IsFirst find u v
    → str_str (u ++ (find ++ v)) find ≡ some (find ++ v)
str_str_first find u v c first =
    let (r, found, long) = str_str_complete u find v c in
    let (p, t, whole, here) = str_str_sound (u ++ (find ++ v)) find {r = r} c found in
    let behind : length u ≤ length p = first p t (whole ∙ ap (◌++◌ p) here) in
    let sizes : length u + length (find ++ v) ≡ length p + length r =
      sym (length-append u (find ++ v)) ∙ ap length whole ∙ length-append p r in
    let same : length u ≡ length p = omega arith in
    let suffix : r ≡ find ++ v =
      sym (drop-length p r)
      ∙ ap (drop (length p)) (sym whole)
      ∙ ap (λ n. drop n (u ++ (find ++ v))) (sym same)
      ∙ drop-length u (find ++ v) in
    found ∙ ap some suffix

str_str-none : (find s : Bytes) → IsCString find → ¬ Occurs find s → str_str s find ≡ none
str_str-none find s c absent = elim (Option-cases (str_str s find)) [
  | inl missing ↦ missing
  | inr (r, found) ↦
      let (p, t, whole, here) = str_str_sound s find {r = r} c found in
      absurd (absent (p, t, whole ∙ ap (◌++◌ p) here))
]

-- Where the text does not occur, the loop copies the line.
pub loop-rest :
    (f : ℕ) (find replace : Bytes) (global did : Bool) (s result : Bytes)
    → IsCString find
    → ¬ Occurs find s
    → length s ≤ f
    → length result + length s ≤ 4095
    → substitute_loop f find replace global did s result ≡ result ++ s
unfolding substitute_loop
loop-rest zero find replace global did [] result c absent fuel fits = sym (append-nil result)
loop-rest (suc f) find replace global did [] result c absent fuel fits = sym (append-nil result)
loop-rest zero find replace global did (x ∷ s) result c absent fuel fits = absurd (omega arith)
loop-rest (suc f) find replace global did (x ∷ s) result c absent fuel fits =
    let later : ¬ Occurs find s = λ (p, t, e). absent (x ∷ p, t, ap (◌∷◌ x) e) in
    let grown = length-append result (x ∷ []) in
    rw (str_str-none find (x ∷ s) c absent, substitute_loop, put_fits result (x ∷ []) (omega arith))
      (loop-rest f find replace global did s (result ++ x ∷ []) c later (omega arith) (omega arith)
        ∙ append_assoc result (x ∷ []) s)

pub append-nil_middle : (u find v : Bytes) → u ++ (find ++ v) ≡ [] → find ≡ []
append-nil_middle (x ∷ u) find v e = absurd (ground arith)
append-nil_middle [] (x ∷ find) v e = absurd (ground arith)
append-nil_middle [] [] v e = refl

pub length-eq-nil : (s : Bytes) → length s ≤ 0 → s ≡ []
length-eq-nil [] h = refl
length-eq-nil (x ∷ s) h = absurd (omega arith)

pub length-positive : (s : Bytes) → s ≢ [] → 0 < length s
length-positive [] h = absurd (h refl)
length-positive (x ∷ s) h = omega arith

pub or_true : (b : Bool) → b || true ≡ true
or_true true = refl
or_true false = refl

one_round :
    (f : ℕ) (find replace : Bytes) (global did : Bool) (p result : Bytes) {r : Bytes}
    → p ≢ []
    → str_str p find ≡ some r
    → not did || global ≡ true
    → substitute_loop (suc f) find replace global did p result
      ≡ substitute_loop f find replace global true
          (drop (str_len find) r)
          (put (put result (take (length p - length r) p)) replace)
unfolding substitute_loop
one_round f find replace global did [] result full found may = absurd (full refl)
one_round f find replace global did (x ∷ p) result full found may =
    rw (found, substitute_loop, may, if◌then◌else◌) refl

-- A round at a match that may be replaced.
pub loop-match :
    (f : ℕ) (find replace : Bytes) (global did : Bool) (u v result : Bytes)
    → find ≢ []
    → IsCString find
    → IsFirst find u v
    → not did || global ≡ true
    → length result + length (u ++ replace) ≤ 4095
    → substitute_loop (suc f) find replace global did (u ++ (find ++ v)) result
      ≡ substitute_loop f find replace global true v (result ++ (u ++ replace))
loop-match f find replace global did u v result some_find c first may fits =
    let both = length-append u replace in
    let grown = length-append result u in
    let sizes = length-append u (find ++ v) in
    let width : length (u ++ (find ++ v)) - length (find ++ v) ≡ length u = omega arith in
    let before : take (length (u ++ (find ++ v)) - length (find ++ v)) (u ++ (find ++ v)) ≡ u =
      ap (λ n. take n (u ++ (find ++ v))) width ∙ take-length u (find ++ v) in
    let behind : drop (str_len find) (find ++ v) ≡ v =
      ap (λ n. drop n (find ++ v)) (str_len-length find) ∙ drop-length find v in
    let copied : put (put result u) replace ≡ result ++ (u ++ replace) =
      ap (λ t. put t replace) (put_fits result u (omega arith))
      ∙ put_fits (result ++ u) replace (omega arith)
      ∙ append_assoc result u replace in
    one_round f find replace global did (u ++ (find ++ v)) result
      (λ e. some_find (append-nil_middle u find v e)) (str_str_first find u v c first) may
    ∙ ap
        (λ b.
          substitute_loop f find replace global true (drop (str_len find) (find ++ v))
            (put (put result b) replace))
        before
    ∙ ap (λ b. substitute_loop f find replace global true b (put (put result u) replace)) behind
    ∙ ap (substitute_loop f find replace global true v) copied
