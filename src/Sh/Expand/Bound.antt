-- ===== src/Sh/Expand/Bound.antt =====
-- tools/sh.c: `expand_vars` against an expansion with no bound.
use qoot.Base.{
  some, ℕ, zero, suc, ◌-◌, ◌≤◌, ◌≡◌, refl, ap, sym, ◌∙◌, inl, inr, Bool, ◌&&◌, ◌||◌, not, [], ◌∷◌,
  ◌++◌, Bytes, length, take, drop, length-drop, arith, ◌==◌, if◌then◌else◌, Bool-cases,
}
use qoot.Sh.Environment.{Environment}
use qoot.Sh.Expand.{name_while, var_name, value_of, stored, text_of, expand_loop, expand_vars}
use qoot.Str.{peek, is_alnum}

-- Whether the byte begins a variable.
abbrev is_variable : ℕ → Bytes → Bool
is_variable c src = c == b'$' && not (peek src == 0)

-- The text with every variable replaced, however long; `f` bounds the rounds.
unfoldable pub expand_within : Environment → ℕ → Bytes → Bytes
unfolding var_name value_of
expand_within env zero src = []
expand_within env (suc f) [] = []
expand_within env (suc f) (c ∷ src) =
    let (name, after) = var_name src in
    let expanded = value_of env name ++ expand_within env f after in
    let copied = c ∷ expand_within env f src in
    if c == b'$' && not (peek src == 0) then expanded else copied

unfoldable pub expand : Environment → Bytes → Bytes
unfolding expand_within
expand env src = expand_within env (length src) src

take-append :
    (n : ℕ) (xs ys : Bytes) → take n (xs ++ ys) ≡ take n xs ++ take (n - length (take n xs)) ys
take-append zero xs ys = refl
take-append (suc n) [] ys = let whole : suc n - 0 ≡ suc n = omega arith in rw whole refl
take-append (suc n) (x ∷ xs) ys =
    let less : suc n - suc (length (take n xs)) ≡ n - length (take n xs) = omega arith in
    rw less (ap (◌∷◌ x) (take-append n xs ys))

take_nil : (n : ℕ) → take {A = ℕ} n [] ≡ []
take_nil zero = refl
take_nil (suc n) = refl

length-name_while :
    (test : ℕ → Bool) (max : ℕ) (src : Bytes) → length (name_while test max src) ≤ length src
unfolding name_while
length-name_while test zero src = omega arith
length-name_while test (suc max) [] = omega arith
length-name_while test (suc max) (c ∷ src) = ground (arith, length-name_while test max src)

close-le : (t : Bytes) (n : ℕ) → length t ≤ n → length (if peek t == b'}' then drop 1 t else t) ≤ n
close-le t n h = elim (Bool-cases (peek t == b'}')) [
  | inl closed ↦ rw closed (omega (arith, length-drop 1 t))
  | inr open_ ↦ rw open_ h
]

-- What is left behind a name is no longer than the text.
pub var_name-le : (src : Bytes) → length (var_name src).1 ≤ length src
unfolding var_name
var_name-le src = elim (Bool-cases (peek src == b'{')) [
  | inl braced ↦ rw braced (
      close-le (drop (length (name_while (λ c. not (c == b'}')) 255 (drop 1 src))) (drop 1 src))
        (length src)
        (omega (
          arith,
          length-drop 1 src,
          length-drop (length (name_while (λ c. not (c == b'}')) 255 (drop 1 src))) (drop 1 src),
        )))
  | inr bare ↦ elim (Bool-cases (peek src == b'?')) [
    | inl status ↦ rw (bare, status) (omega (arith, length-drop 1 src))
    | inr other ↦
        rw (bare, other)
          (omega (
            arith,
            length-drop {0} (length (name_while (λ c. is_alnum c || c == b'_') 255 src)) src,
          ))
  ]
]

pub expand_within_enough :
    (env : Environment) (f g : ℕ) (src : Bytes)
    → length src ≤ f
    → length src ≤ g
    → expand_within env f src ≡ expand_within env g src
unfolding expand_within
expand_within_enough env zero zero src hf hg = refl
expand_within_enough env zero (suc g) [] hf hg = refl
expand_within_enough env zero (suc g) (c ∷ src) hf hg = absurd (omega arith)
expand_within_enough env (suc f) zero [] hf hg = refl
expand_within_enough env (suc f) zero (c ∷ src) hf hg = absurd (omega arith)
expand_within_enough env (suc f) (suc g) [] hf hg = refl
expand_within_enough env (suc f) (suc g) (c ∷ src) hf hg =
    let after = (var_name src).1 in
    let le = var_name-le src in
    rw
      (
        expand_within_enough env f g src (omega arith) (omega arith),
        expand_within_enough env f g after (omega arith) (omega arith),
      )
      refl

expand_loop-take :
    (env : Environment) (f : ℕ) (src : Bytes) (room : ℕ)
    → length src ≤ f
    → expand_loop env f src room ≡ some (take room (expand_within env f src))
unfolding expand_loop expand_within
expand_loop-take env zero [] room h = ap some (sym (take_nil room))
expand_loop-take env zero (c ∷ src) room h = absurd (omega arith)
expand_loop-take env (suc f) [] room h = ap some (sym (take_nil room))
expand_loop-take env (suc f) (c ∷ src) zero h = refl
expand_loop-take env (suc f) (c ∷ src) (suc room) h = elim (Bool-cases (is_variable c src)) [
  | inl variable ↦
      let after = (var_name src).1 in
      let val = value_of env (var_name src).0 in
      let left = suc room - length (take (suc room) val) in
      let later = expand_loop-take env f after left (omega (arith, var_name-le src)) in
      rw variable (
        ap (stored (take (suc room) val)) later
        ∙ ap some (sym (take-append (suc room) val (expand_within env f after))))
  | inr plain ↦ rw plain (ap (stored (c ∷ [])) (expand_loop-take env f src room (omega arith)))
]

-- With as many rounds as the text has bytes, or more, the loop ends, and what it has stored is the
-- text with each variable replaced by its value, as far as there is room.
pub expand_loop_ends :
    (env : Environment) (f : ℕ) (src : Bytes) (room : ℕ)
    → length src ≤ f
    → expand_loop env f src room ≡ some (take room (expand env src))
unfolding expand
expand_loop_ends env f src room h =
    expand_loop-take env f src room h
    ∙ ap (λ t. some (take room t)) (expand_within_enough env f (length src) src h (omega arith))

pub expand_vars-take :
    (env : Environment) (src : Bytes) (n : ℕ)
    → expand_vars env src (suc n) ≡ take n (expand env src)
unfolding expand_vars
expand_vars-take env src n =
    let less : suc n - 1 ≡ n = omega arith in
    rw less (ap text_of (expand_loop_ends env (length src) src n (omega arith)))
