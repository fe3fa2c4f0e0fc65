-- ===== src/Auth/Grants.antt =====
-- include/auth.h: which lines authorize a user.
use qoot.Base.{
  ℕ, ◌≡◌, ◌↔◌, ◌⊎◌, inl, inr, refl, ap, sym, ◌∙◌, true, ◌||◌, [], ◌∷◌, ◌++◌, append_assoc,
  append-nil, ◌<◌, Bytes, codes, get_or, arith, Bool-cases, ◌==◌,
}
use mathlib.Core.List.{cons-ne-nil, cons-eq-cons}
use mathlib.Core.Path.{subst}
use qoot.Str.{IsCString, str_eq, starts_with, str_len}
use qoot.Str.Laws.{str_eq_iff, Begins, starts_with_iff}
use qoot.Auth.{line_authorizes}

-- The line names everybody or the user, alone or as its first word.
abbrev pub Authorizes : Bytes → Bytes → Type 0
Authorizes user line =
    (line ≡ codes "ALL")
    ⊎ Begins line (codes "ALL ")
    ⊎ (line ≡ user)
    ⊎ Begins line (user ++ 32 ∷ [])
    ⊎ Begins line (user ++ 9 ∷ [])

-- Behind the user's name stands a separator or nothing.
after_user : (user t : Bytes) → get_or (user ++ t) (str_len user) 0 ≡ get_or t 0 0
unfolding str_len
after_user [] t = refl
after_user (c ∷ user) t = after_user user t

codes_all-IsCString : IsCString (codes "ALL")
codes_all-IsCString = omega arith

nonzero : (user line : Bytes) (c : ℕ) (t : Bytes) → IsCString line → line ≡ user ++ c ∷ t → 0 < c
nonzero [] line c t cl e = let whole : IsCString (c ∷ t) = subst IsCString e cl in whole.0.0
nonzero (x ∷ user) [] c t cl e = absurd (cons-ne-nil x _ (sym e))
nonzero (x ∷ user) (y ∷ line) c t cl e = nonzero user line c t cl.1 (cons-eq-cons.0 e).1

separator :
    (user line t : Bytes)
    → IsCString line
    → line ≡ user ++ t
    → (get_or t 0 0 == 0 || get_or t 0 0 == 32 || get_or t 0 0 == 9) ≡ true
    → (line ≡ user) ⊎ Begins line (user ++ 32 ∷ []) ⊎ Begins line (user ++ 9 ∷ [])
separator user line [] cl e h = inl (e ∙ append-nil user)
separator user line (c ∷ t) cl e h = elim (Bool-cases (c == 32)) [
  | inl space ↦
      let e' : c ≡ 32 = ground arith in
      inr (inl (t, e ∙ ap (λ x. user ++ x ∷ t) e' ∙ sym (append_assoc user (32 ∷ []) t)))
  | inr no_space ↦ elim (Bool-cases (c == 9)) [
    | inl tab ↦
        let e' : c ≡ 9 = ground arith in
        inr (inr (t, e ∙ ap (λ x. user ++ x ∷ t) e' ∙ sym (append_assoc user (9 ∷ []) t)))
    | inr no_tab ↦ let p : 0 < c = nonzero user line c t cl e in absurd (ground arith)
  ]
]

line_authorizes_sound :
    (user line : Bytes)
    → IsCString user
    → IsCString line
    → line_authorizes user line ≡ true
    → Authorizes user line
unfolding line_authorizes
line_authorizes_sound user line cu cl h =
    let everybody = str_eq_iff line (codes "ALL") cl codes_all-IsCString in
    let first_word = starts_with_iff line (codes "ALL ") in
    let the_user = str_eq_iff line user cl cu in
    elim (Bool-cases (str_eq line (codes "ALL"))) [
      | inl e ↦ inl (everybody.0 e)
      | inr e1 ↦ elim (Bool-cases (starts_with line (codes "ALL "))) [
        | inl e ↦ inr (inl (first_word.0 e))
        | inr e2 ↦ elim (Bool-cases (str_eq line user)) [
          | inl e ↦ inr (inr (inl (the_user.0 e)))
          | inr e3 ↦ elim (Bool-cases (starts_with line user)) [
            | inl e ↦
                let (t, et) = (starts_with_iff line user).0 e in
                let here : get_or line (str_len user) 0 ≡ get_or t 0 0 =
                  rw et (after_user user t) in
                inr (inr (separator user line t cl et (ground arith)))
            | inr e4 ↦ absurd (ground arith)
          ]
        ]
      ]
    ]

first_word :
    (user line : Bytes) (c : ℕ) (t : Bytes)
    → line ≡ user ++ c ∷ t
    → (c == 0 || c == 32 || c == 9) ≡ true
    → line_authorizes user line ≡ true
unfolding line_authorizes
first_word user line c t e sep =
    let begins : starts_with line user ≡ true = (starts_with_iff line user).1 (c ∷ t, e) in
    let here : get_or line (str_len user) 0 ≡ c = rw e (after_user user (c ∷ t)) in ground arith

Authorizes-line :
    (user line : Bytes)
    → IsCString user
    → IsCString line
    → Authorizes user line
    → line_authorizes user line ≡ true
unfolding line_authorizes
Authorizes-line user line cu cl (inl e) =
    rw ((str_eq_iff line (codes "ALL") cl codes_all-IsCString).1 e, line_authorizes)
Authorizes-line user line cu cl (inr (inl b)) =
    let e : starts_with line (codes "ALL ") ≡ true = (starts_with_iff line (codes "ALL ")).1 b in
    ground (arith, e)
Authorizes-line user line cu cl (inr (inr (inl e))) =
    let same = (str_eq_iff line user cl cu).1 e in ground (arith, same)
Authorizes-line user line cu cl (inr (inr (inr (inl (t, e))))) =
    first_word user line 32 t (e ∙ append_assoc user (32 ∷ []) t) refl
Authorizes-line user line cu cl (inr (inr (inr (inr (t, e))))) =
    first_word user line 9 t (e ∙ append_assoc user (9 ∷ []) t) refl

-- A trimmed line authorizes exactly if its first word is ALL or the user, or it is that word alone.
pub line_authorizes_iff :
    (user line : Bytes)
    → IsCString user
    → IsCString line
    → (line_authorizes user line ≡ true) ↔ Authorizes user line
line_authorizes_iff user line cu cl =
    (line_authorizes_sound user line cu cl, Authorizes-line user line cu cl)
