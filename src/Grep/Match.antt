-- ===== src/Grep/Match.antt =====
-- tools/grep.c: the matcher finds exactly what the pattern means.
use qoot.Base.{
  ℕ, ◌≡◌, ◌≢◌, ◌↔◌, refl, ap, sym, [], ◌∷◌, ◌++◌, Bool, true, false, not, ◌||◌, Bytes, All, arith,
  inl, inr, ◌==◌, Bool-cases,
}
use mathlib.Core.Path.{subst}
use qoot.Str.{peek}
use mathlib.Core.List.{cons-ne-nil, cons-eq-cons}
use qoot.Grep.{star_test, accept, match_star, match_plus, match_here}
use qoot.Grep.Pattern.{Atom, any, char, Accepts, End, Found, atom, items, anchored, IsLine}

-- `here` answers the question `Q` on lines.
abbrev pub Answers : (Bytes → Bool) → (Bytes → Type 0) → Type 0
Answers here Q = (t : Bytes) → IsLine t → (here t ≡ true) ↔ Q t

abbrev Run : Atom → (Bytes → Type 0) → Bytes → Type 0
Run a Q text = (u v : Bytes) × (text ≡ u ++ v) × All (Accepts a) u × Q v

star_test_iff : (c x : ℕ) → x ≢ 10 → (star_test c x ≡ true) ↔ Accepts (atom c) x
unfolding star_test
star_test_iff c x h = elim (Bool-cases (c == b'.')) [
  | inl dot ↦ rw dot (ground arith)
  | inr other ↦ rw other (ground arith)
]

IsLine-tail : (u v : Bytes) → IsLine (u ++ v) → IsLine v
IsLine-tail [] v l = l
IsLine-tail (x ∷ u) v l = IsLine-tail u v l.1

module _ (here : Bytes → Bool) (Q : Bytes → Type 0) (right : Answers here Q) where
  match_star-Run : (c : ℕ) (t : Bytes) → IsLine t → match_star here c t ≡ true → Run (atom c) Q t
  unfolding match_star
  match_star-Run c [] l h = ([], [], refl, tt, (right [] l).0 h)
  match_star-Run c (x ∷ t) l h = elim (Bool-cases (here (x ∷ t))) [
    | inl now ↦ ([], x ∷ t, refl, tt, (right (x ∷ t) l).0 now)
    | inr later ↦
        let (u, v, e, a, q) = match_star-Run c t l.1 (ground arith) in
        (x ∷ u, v, ap (◌∷◌ x) e, ((star_test_iff c x l.0.1).0 (ground arith), a), q)
  ]

  Run-match_star :
      (c : ℕ) (u v : Bytes)
      → IsLine (u ++ v)
      → All (Accepts (atom c)) u
      → Q v
      → match_star here c (u ++ v) ≡ true
  unfolding match_star
  Run-match_star c [] [] l a q = (right [] l).1 q
  Run-match_star c [] (x ∷ v) l a q = rw ((right (x ∷ v) l).1 q, match_star)
  Run-match_star c (x ∷ u) v l a q =
      ground (arith, (star_test_iff c x l.0.1).1 a.0, Run-match_star c u v l.1 a.1 q)

  match_plus-Run :
      (c : ℕ) (t : Bytes)
      → IsLine t
      → match_plus here c t ≡ true
      → (u v : Bytes) × (u ≢ []) × (t ≡ u ++ v) × All (Accepts (atom c)) u × Q v
  unfolding match_plus
  match_plus-Run c [] l h = absurd (cc)
  match_plus-Run c (x ∷ t) l h =
      let ok : Accepts (atom c) x = (star_test_iff c x l.0.1).0 (ground arith) in
      elim (Bool-cases (here t)) [
        | inl now ↦ (x ∷ [], t, cons-ne-nil x [], refl, (ok, tt), (right t l.1).0 now)
        | inr later ↦
            let (u, v, ne, e, a, q) = match_plus-Run c t l.1 (ground arith) in
            (x ∷ u, v, cons-ne-nil x u, ap (◌∷◌ x) e, (ok, a), q)
      ]

  Run-match_plus :
      (c : ℕ) (u v : Bytes)
      → u ≢ []
      → IsLine (u ++ v)
      → All (Accepts (atom c)) u
      → Q v
      → match_plus here c (u ++ v) ≡ true
  unfolding match_plus
  Run-match_plus c [] v ne l a q = absurd (ne refl)
  Run-match_plus c (x ∷ []) v ne l a q =
      ground (arith, (star_test_iff c x l.0.1).1 a.0, (right v l.1).1 q)
  Run-match_plus c (x ∷ y ∷ u) v ne l a q = ground (
    arith,
    (star_test_iff c x l.0.1).1 a.0,
    Run-match_plus c (y ∷ u) v (cons-ne-nil y u) l.1 a.1 q,
  )

accept_iff :
    (test : ℕ → Bool) (rest : Bytes → Bool) (P : ℕ → Type 0) (Q : Bytes → Type 0)
    → ((c : ℕ) → c ≢ 10 → (test c ≡ true) ↔ P c)
    → Answers rest Q
    → Answers (accept test rest) (λ t. (c : ℕ) × (v : Bytes) × (t ≡ c ∷ v) × P c × Q v)
unfolding accept
accept_iff test rest P Q each right [] l =
    (λ h. absurd (cc), λ r. absurd (cons-ne-nil r.0 r.1 (sym r.2)))
accept_iff test rest P Q each right (c ∷ t) l = (
  λ h. (c, t, refl, (each c l.0.1).0 (ground arith), (right t l.1).0 (ground arith)),
  λ (c', v, e, p, q).
      let (ec, et) = cons-eq-cons.0 e in
      let now : test c ≡ true = (each c l.0.1).1 (subst P (sym ec) p) in
      let next : rest t ≡ true = (right t l.1).1 (subst Q (sym et) q) in ground arith,
)

star_iff :
    (here : Bytes → Bool) (Q : Bytes → Type 0) (c : ℕ)
    → Answers here Q
    → Answers (match_star here c) (Run (atom c) Q)
star_iff here Q c right t l = (
  match_star-Run here Q right c t l,
  λ (u, v, e, a, q).
      let l' : IsLine (u ++ v) = subst IsLine e l in
      rw e (Run-match_star here Q right c u v l' a q),
)

plus_iff :
    (here : Bytes → Bool) (Q : Bytes → Type 0) (c : ℕ)
    → Answers here Q
    → Answers
        (match_plus here c)
        (λ t. (u v : Bytes) × (u ≢ []) × (t ≡ u ++ v) × All (Accepts (atom c)) u × Q v)
plus_iff here Q c right t l = (
  match_plus-Run here Q right c t l,
  λ (u, v, ne, e, a, q).
      let l' : IsLine (u ++ v) = subst IsLine e l in
      rw e (Run-match_plus here Q right c u v ne l' a q),
)

any_iff : (c : ℕ) → c ≢ 10 → (not (c == 10) ≡ true) ↔ Accepts any c
any_iff c h = ground arith

char_iff : (x c : ℕ) → c ≢ 10 → ((x == c) ≡ true) ↔ Accepts (char x) c
char_iff x c h = ground arith

always : Answers (λ t. true) (End false)
always t l = (λ h. tt, λ h. refl)

End-iff : Answers (λ t. peek t == 0 || peek t == 10) (End true)
End-iff [] l = (λ h. refl, λ h. refl)
End-iff (c ∷ t) l = (λ h. absurd (ground arith), λ h. absurd (cons-ne-nil c t h))

match_here_last :
    (p : ℕ) → Answers (match_here (p ∷ [])) (Found (anchored (p ∷ [])) (items (p ∷ [])))
unfolding match_here
match_here_last p t l = elim (Bool-cases (p == b'$')) [
  | inl dollar ↦ rw dollar (End-iff t l)
  | inr other ↦ elim (Bool-cases (p == b'.')) [
    | inl dot ↦ rw (other, dot) (accept_iff _ _ (Accepts any) (End false) any_iff always t l)
    | inr plain ↦
        rw (other, plain) (accept_iff _ _ (Accepts (char p)) (End false) (char_iff p) always t l)
  ]
]

match_here_pair :
    (p q : ℕ) (pat : Bytes)
    → Answers (match_here pat) (Found (anchored pat) (items pat))
    → Answers (match_here (q ∷ pat)) (Found (anchored (q ∷ pat)) (items (q ∷ pat)))
    → Answers (match_here (p ∷ q ∷ pat)) (Found (anchored (p ∷ q ∷ pat)) (items (p ∷ q ∷ pat)))
unfolding match_here
match_here_pair p q pat after next t l = elim (Bool-cases (q == b'*')) [
  | inl many ↦ rw many (star_iff _ _ p after t l)
  | inr not_many ↦ elim (Bool-cases (q == b'+')) [
    | inl some_more ↦ rw (not_many, some_more) (plus_iff _ _ p after t l)
    | inr not_plus ↦ elim (Bool-cases (p == b'.')) [
      | inl dot ↦ rw (not_many, not_plus, dot) (accept_iff _ _ (Accepts any) _ any_iff next t l)
      | inr not_dot ↦ elim (Bool-cases (p == b'\\')) [
        | inl escape ↦
            rw (not_many, not_plus, not_dot, escape)
              (accept_iff _ _ (Accepts (char q)) _ (char_iff q) after t l)
        | inr plain ↦
            rw (not_many, not_plus, not_dot, plain)
              (accept_iff _ _ (Accepts (char p)) _ (char_iff p) next t l)
      ]
    ]
  ]
]

-- On a line, `match_here` holds exactly if the line begins with what the pattern means.
pub match_here_iff : (pat : Bytes) → Answers (match_here pat) (Found (anchored pat) (items pat))
match_here_iff [] t l = unfold match_here in (λ h. tt, λ h. refl)
match_here_iff (p ∷ []) t l = match_here_last p t l
match_here_iff (p ∷ q ∷ pat) t l =
    match_here_pair p q pat (match_here_iff pat) (match_here_iff (q ∷ pat)) t l
