-- ===== src/Sed/Substitute.antt =====
-- tools/sed.c: `sed_substitute` against what a substitution means.
use qoot.Base.{
  ℕ, zero, suc, ◌+◌, ◌≤◌, ◌≡◌, ◌≢◌, inl, inr, refl, ap, sym, ◌∙◌, Bool, true, false, not, [], ◌∷◌,
  ◌++◌, append-nil, append_assoc, Option-cases, ne→==, Bytes, length, length-append, ◌==◌,
  if◌then◌else◌, arith,
}
use qoot.Str.{IsCString, str_len, str_str}
use qoot.Sed.{put, substitute_loop, sed_substitute}
use qoot.Sed.Replace.{
  IsFirst, Replaced, rest, one, str_len-length, put_fits, loop-rest, loop-match, append-nil_middle,
  length-eq-nil, length-positive, or_true,
}

-- `s/find/replace/g`: a result that fits `result` is the line with every occurrence replaced.
loop-Replaced :
    (find replace : Bytes) (f : ℕ) (did : Bool) (s w result : Bytes)
    → find ≢ []
    → IsCString find
    → Replaced find replace s w
    → length s ≤ f
    → length result + length w ≤ 4095
    → substitute_loop f find replace true did s result ≡ result ++ w
loop-Replaced find replace f did s _ result some_find c (rest _ absent) fuel fits =
    loop-rest f find replace true did s result c absent fuel fits
loop-Replaced find replace zero did _ _ result some_find c (one u v w first more) fuel fits =
    absurd (some_find (append-nil_middle u find v (length-eq-nil (u ++ (find ++ v)) fuel)))
loop-Replaced find replace (suc f) did _ _ result some_find c (one u v w first more) fuel fits =
    let whole = length-append u (find ++ v) in
    let half = length-append find v in
    let width = length-positive find some_find in
    let written = length-append u (replace ++ w) in
    let written' = length-append replace w in
    let new = length-append u replace in
    let grown = length-append result (u ++ replace) in
    loop-match f find replace true did u v result some_find c first (or_true (not did))
      (omega arith)
    ∙ loop-Replaced find replace f true v w (result ++ (u ++ replace)) some_find c more
        (omega arith) (omega arith)
    ∙ append_assoc result (u ++ replace) w
    ∙ ap (◌++◌ result) (append_assoc u replace w)

-- With `g`, `sed_substitute` prints the line with every occurrence replaced, from the left, if
-- the new line fits in LINE_MAX - 1 bytes.
pub sed_substitute-Replaced :
    (line find replace w : Bytes)
    → find ≢ []
    → IsCString find
    → Replaced find replace line w
    → length w ≤ 4095
    → sed_substitute line find replace true ≡ w ++ 10 ∷ []
unfolding sed_substitute
sed_substitute-Replaced line find replace w some_find c r fits =
    let width = length-positive find some_find in
    let full : (str_len find == 0) ≡ false =
      ne→== (str_len find) 0 (λ e. absurd (omega (arith, str_len-length find))) in
    rw (full, if◌then◌else◌)
      (ap (λ t. t ++ 10 ∷ [])
        (loop-Replaced find replace (length line) false line w [] some_find c r (omega arith)
          (omega arith)))

-- After the first replacement the rest is copied.
loop-copied :
    (f : ℕ) (find replace p result : Bytes)
    → length p ≤ f
    → length result + length p ≤ 4095
    → substitute_loop f find replace false true p result ≡ result ++ p
unfolding substitute_loop
loop-copied zero find replace [] result fuel fits = sym (append-nil result)
loop-copied (suc f) find replace [] result fuel fits = sym (append-nil result)
loop-copied zero find replace (x ∷ p) result fuel fits = absurd (omega arith)
loop-copied (suc f) find replace (x ∷ p) result fuel fits =
    let grown = length-append result (x ∷ []) in
    let copied : substitute_loop f find replace false true p (put result (x ∷ []))
        ≡ result ++ x ∷ p =
      ap (substitute_loop f find replace false true p) (put_fits result (x ∷ []) (omega arith))
      ∙ loop-copied f find replace p (result ++ x ∷ []) (omega arith) (omega arith)
      ∙ append_assoc result (x ∷ []) p in
    elim (Option-cases (str_str (x ∷ p) find)) [
      | inl missing ↦ rw (missing, substitute_loop) copied
      | inr (r, found) ↦ rw (found, substitute_loop) copied
    ]

loop-first :
    (f : ℕ) (u v find replace : Bytes)
    → find ≢ []
    → IsCString find
    → IsFirst find u v
    → length (u ++ (find ++ v)) ≤ f
    → length (u ++ (replace ++ v)) ≤ 4095
    → substitute_loop f find replace false false (u ++ (find ++ v)) [] ≡ u ++ (replace ++ v)
loop-first zero u v find replace some_find c first fuel fits =
    absurd (some_find (append-nil_middle u find v (length-eq-nil (u ++ (find ++ v)) fuel)))
loop-first (suc f) u v find replace some_find c first fuel fits =
    let whole = length-append u (find ++ v) in
    let half = length-append find v in
    let width = length-positive find some_find in
    let written = length-append u (replace ++ v) in
    let written' = length-append replace v in
    let new = length-append u replace in
    loop-match f find replace false false u v [] some_find c first refl (omega arith)
    ∙ loop-copied f find replace v (u ++ replace) (omega arith) (omega arith)
    ∙ append_assoc u replace v

-- Without `g`, the first occurrence alone is replaced, if nothing that is copied is cut.
sed_substitute_first :
    (u v find replace : Bytes)
    → find ≢ []
    → IsCString find
    → IsFirst find u v
    → length (u ++ (replace ++ v)) ≤ 4095
    → sed_substitute (u ++ (find ++ v)) find replace false ≡ (u ++ (replace ++ v)) ++ 10 ∷ []
unfolding sed_substitute
sed_substitute_first u v find replace some_find c first fits =
    let width = length-positive find some_find in
    let full : (str_len find == 0) ≡ false =
      ne→== (str_len find) 0 (λ e. absurd (omega (arith, str_len-length find))) in
    rw (full, if◌then◌else◌)
      (ap (λ t. t ++ 10 ∷ [])
        (loop-first (length (u ++ (find ++ v))) u v find replace some_find c first (omega arith)
          fits))
