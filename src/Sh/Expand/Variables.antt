-- ===== src/Sh/Expand/Variables.antt =====
-- tools/sh.c: `expand_vars` on a text with a variable in it.
use qoot.Base.{
  ℕ, zero, suc, ◌≤◌, ◌≡◌, ◌≢◌, refl, ap, ◌∙◌, Bool, true, false, ◌||◌, not, [], ◌∷◌, ◌++◌, Bytes,
  length, take, drop, All, arith, ne→==, ◌==◌,
}
use qoot.Sh.Environment.{Environment}
use qoot.Sh.Expand.{name_while, var_name, value_of, expand_vars}
use qoot.Sh.Expand.Bound.{
  expand, expand_within, expand_within_enough, expand_vars-take, var_name-le,
}
use qoot.Str.{peek, is_alnum, is_alpha, is_digit}

abbrev pub NoDollar : Bytes → Type 0
NoDollar = All (λ c. c ≢ b'$')

expand_plain :
    (env : Environment) (text rest : Bytes)
    → NoDollar text
    → expand env (text ++ rest) ≡ text ++ expand env rest
unfolding expand expand_within
expand_plain env [] rest h = refl
expand_plain env (c ∷ text) rest h =
    rw (ne→== c b'$' h.0) (ap (◌∷◌ c) (expand_plain env text rest h.1))

expand_variable :
    (env : Environment) (src : Bytes)
    → peek src ≢ 0
    → length (var_name src).1 ≤ length src
    → expand env (b'$' ∷ src) ≡ value_of env (var_name src).0 ++ expand env (var_name src).1
unfolding expand expand_within
expand_variable env src ne le = rw (ne→== (peek src) 0 ne) (
    ap (◌++◌ (value_of env (var_name src).0)) (
      expand_within_enough env (length src) (length (var_name src).1) (var_name src).1 le
        (omega arith)))

drop-length : (name rest : Bytes) → drop (length name) (name ++ rest) ≡ rest
drop-length [] rest = refl
drop-length (c ∷ name) rest = drop-length name rest

name_while_stops :
    (test : ℕ → Bool) (max : ℕ) (name rest : Bytes)
    → All (λ c. test c ≡ true) name
    → length name ≤ max
    → (test (peek rest) ≡ false)
    → name_while test max (name ++ rest) ≡ name
unfolding name_while
name_while_stops test zero [] rest h le stop = refl
name_while_stops test zero (c ∷ name) rest h le stop = absurd (omega arith)
name_while_stops test (suc max) [] [] h le stop = refl
name_while_stops test (suc max) [] (c ∷ rest) h le stop = rw stop refl
name_while_stops test (suc max) (c ∷ name) rest h le stop =
    rw h.0 (ap (◌∷◌ c) (name_while_stops test max name rest h.1 (omega arith) stop))

var_name_braced :
    (name post : Bytes)
    → All (λ c. not (c == b'}') ≡ true) name
    → length name ≤ 255
    → var_name (b'{' ∷ (name ++ b'}' ∷ post)) ≡ (name, post)
unfolding var_name
var_name_braced name post h le =
    rw (name_while_stops (λ c. not (c == b'}')) 255 name (b'}' ∷ post) h le refl)
      (rw (drop-length name (b'}' ∷ post)) refl)

-- A byte of a name that stands with no braces.
abbrev pub is_word_byte : ℕ → Bool
is_word_byte c = is_alnum c || c == b'_'

word_byte_bare :
    (c : ℕ) → is_word_byte c ≡ true → (c == b'{' ≡ false) × ((c == b'?') ≡ false) × (c ≢ 0)
unfolding is_alnum is_alpha is_digit
word_byte_bare c h = (ground arith, ground arith, ground arith)

var_name_bare :
    (c : ℕ) (name post : Bytes)
    → All (λ d. is_word_byte d ≡ true) (c ∷ name)
    → length (c ∷ name) ≤ 255
    → is_word_byte (peek post) ≡ false
    → var_name (c ∷ name ++ post) ≡ (c ∷ name, post)
unfolding var_name
var_name_bare c name post h le stop =
    let bare = word_byte_bare c h.0 in
    rw (bare.0, bare.1, name_while_stops is_word_byte 255 (c ∷ name) post h le stop)
      (rw (drop-length name post) refl)

expand_named :
    (env : Environment) (src name post : Bytes)
    → peek src ≢ 0
    → var_name src ≡ (name, post)
    → expand env (b'$' ∷ src) ≡ value_of env name ++ expand env post
expand_named env src name post ne e =
    expand_variable env src ne (var_name-le src)
    ∙ ap (λ (p : Bytes × Bytes). value_of env p.0 ++ expand env p.1) e

-- Behind a text without `$`, `${name}` is replaced by the value of `name`, which has no `}` and at
-- most 255 bytes; what follows is expanded likewise, and the result cut to the array.
pub expand_vars_braced :
    (env : Environment) (pre name post : Bytes) (n : ℕ)
    → NoDollar pre
    → All (λ c. not (c == b'}') ≡ true) name
    → length name ≤ 255
    → expand_vars env (pre ++ b'$' ∷ b'{' ∷ (name ++ b'}' ∷ post)) (suc n)
      ≡ take n (pre ++ (value_of env name ++ expand env post))
expand_vars_braced env pre name post n plain h le =
    let src = b'{' ∷ (name ++ b'}' ∷ post) in
    expand_vars-take env (pre ++ b'$' ∷ src) n
    ∙ ap (take n) (
        expand_plain env pre (b'$' ∷ src) plain
        ∙ ap (◌++◌ pre)
            (expand_named env src name post (omega arith) (var_name_braced name post h le)))

-- `$name` in a text, where no letter, digit or underscore follows, likewise.
pub expand_vars_bare :
    (env : Environment) (pre : Bytes) (c : ℕ) (name post : Bytes) (n : ℕ)
    → NoDollar pre
    → All (λ d. is_word_byte d ≡ true) (c ∷ name)
    → length (c ∷ name) ≤ 255
    → is_word_byte (peek post) ≡ false
    → expand_vars env (pre ++ b'$' ∷ (c ∷ name ++ post)) (suc n)
      ≡ take n (pre ++ (value_of env (c ∷ name) ++ expand env post))
expand_vars_bare env pre c name post n plain h le stop =
    let src = c ∷ name ++ post in
    expand_vars-take env (pre ++ b'$' ∷ src) n
    ∙ ap (take n) (
        expand_plain env pre (b'$' ∷ src) plain
        ∙ ap (◌++◌ pre) (
            expand_named env src (c ∷ name) post (word_byte_bare c h.0).2
              (var_name_bare c name post h le stop)))
