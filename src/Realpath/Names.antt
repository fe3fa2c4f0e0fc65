-- ===== src/Realpath/Names.antt =====
-- tools/realpath.c: only names are kept.
use mathlib.Core.List.{cons-ne-nil}
use qoot.Base.{
  ◌≤◌, Option, none, some, ltb, arith, ℕ, zero, suc, ◌<◌, ◌≡◌, ◌≢◌, ap, sym, ◌∙◌, inl, inr, true,
  false, List, [], ◌∷◌, Bytes, length, drop, All, ◌==◌, Bool-cases, eq→==,
}
use qoot.Realpath.{is_slash, skip_slashes, is_dot, is_dotdot, push, components_loop}
use qoot.Sh.Words.{until}
use qoot.Str.{peek}

-- A name: not empty, without a slash, and no dot or two of them.
abbrev pub IsName : Bytes → Type 0
IsName c = (c ≢ []) × All (λ x. (0 < x) × (x ≢ b'/')) c × (is_dot c ≡ false) × (is_dotdot c ≡ false)

abbrev pub Inside : Bytes → Type 0
Inside = All (λ x. 0 < x)

until-names : (p : Bytes) → Inside p → All (λ x. (0 < x) × (x ≢ b'/')) (until is_slash p)
unfolding until
until-names [] h = tt
until-names (c ∷ p) h = elim (Bool-cases (is_slash c)) [
  | inl e ↦ rw e tt
  | inr e ↦ rw e ((h.0, (λ q. cc (eq→== c b'/' q))), until-names p h.1)
]

skip_slashes-Inside : (p : Bytes) → Inside p → Inside (skip_slashes p)
unfolding skip_slashes
skip_slashes-Inside [] h = tt
skip_slashes-Inside (c ∷ p) h = elim (Bool-cases (is_slash c)) [
  | inl e ↦ rw e (skip_slashes-Inside p h.1)
  | inr e ↦ rw e h
]

drop-Inside : (n : ℕ) (p : Bytes) → Inside p → Inside (drop n p)
drop-Inside zero p h = h
drop-Inside (suc n) [] h = tt
drop-Inside (suc n) (c ∷ p) h = drop-Inside n p h.1

-- Where something is left behind the slashes, a component is not empty.
component_some :
    (p : Bytes) → (peek (skip_slashes p) == 0) ≡ false → until is_slash (skip_slashes p) ≢ []
unfolding skip_slashes until
component_some [] h e = cc
component_some (c ∷ p) h e = elim (Bool-cases (is_slash c)) [
  | inl slash ↦
      component_some p (ap (λ (t : Bytes). peek t == 0) (sym (skipped slash)) ∙ h)
        (ap (until is_slash) (sym (skipped slash)) ∙ e)
  | inr other ↦ cons-ne-nil _ _ (sym (begins other) ∙ e)
]
  where
    skipped : is_slash c ≡ true → skip_slashes (c ∷ p) ≡ skip_slashes p
    skipped slash = rw slash

    begins : is_slash c ≡ false → until is_slash (skip_slashes (c ∷ p)) ≡ c ∷ until is_slash p
    begins other = rw (other, skip_slashes, other)

-- What holds of a result, if there is one.
abbrev pub OnSome : {A : Type 0} → (A → Type 0) → Option A → Type 0
OnSome P none = Unit
OnSome P (some a) = P a

-- Components of names only, which fit their array.
abbrev pub AreNames : List Bytes → Type 0
AreNames cs = All IsName cs × (length cs ≤ 256)

push-names :
    (c : Bytes) (cs : List Bytes)
    → c ≢ []
    → All (λ x. (0 < x) × (x ≢ b'/')) c
    → AreNames cs
    → OnSome AreNames (push c cs)
unfolding push
push-names c cs some_byte free names = elim (Bool-cases (is_dot c)) [
  | inl e ↦ rw e names
  | inr e ↦ rw e (elim (Bool-cases (is_dotdot c)) [
    | inl e' ↦ rw e' (tail cs names)
    | inr e' ↦ rw e' (elim (Bool-cases (ltb (length cs) 256)) [
      | inl room ↦ rw room (((some_byte, free, e, e'), names.0), ground arith)
      | inr full ↦ rw full tt
    ])
  ])
]
  where
    tail : (cs : List Bytes) → AreNames cs → AreNames (drop 1 cs)
    tail [] h = h
    tail (x ∷ cs) h = (h.0.1, omega (arith, h.1))

pub components_loop-names :
    (f : ℕ) (p : Bytes) (cs : List Bytes)
    → Inside p
    → AreNames cs
    → OnSome AreNames (components_loop f p cs)
unfolding components_loop
components_loop-names zero p cs inside names = names
components_loop-names (suc f) p cs inside names = elim (Bool-cases (peek (skip_slashes p) == 0)) [
  | inl e ↦ rw e names
  | inr e ↦
      let start = skip_slashes p in
      let within = skip_slashes-Inside p inside in
      let c = until is_slash start in
      rw e (
        each (drop (length c) start) (push c cs)
          (push-names c cs (component_some p e) (until-names start within) names)
          (λ kept h.
            components_loop-names f (drop (length c) start) kept
              (drop-Inside (length c) start within) h))
]
  where
    each :
        (rest : Bytes) (pushed : Option (List Bytes))
        → OnSome AreNames pushed
        → ((kept : List Bytes) → AreNames kept → OnSome AreNames (components_loop f rest kept))
        → OnSome AreNames (elim pushed as (λ _. Option (List Bytes)) [
          | none ↦ none
          | some kept ↦ components_loop f rest kept
        ])
    each rest none h ih = tt
    each rest (some kept) h ih = ih kept h
