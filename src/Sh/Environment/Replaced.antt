-- ===== src/Sh/Environment/Replaced.antt =====
-- tools/sh.c: the replacement of an entry of the environment, and the size of the table.
use qoot.Base.{
  ℕ, suc, ◌-◌, ◌≤◌, ◌≡◌, ◌⊎◌, inl, inr, ap, sym, ◌∙◌, true, false, [], ◌∷◌, some, Bytes, length,
  length-append, arith, Bool-cases, Option-cases,
}
use qoot.Sh.Environment.{Environment, names, replace_entry, set_env}
use qoot.Str.{str_chr, str_len}

some_injective : {a b : Environment} → some a ≡ some b → a ≡ b
some_injective h = cc

-- The two ways in which an entry is replaced: in the first place, or behind it.
pub replace_entry-cases :
    (entry old : Bytes) (n : ℕ) (env : Environment) {env' : Environment}
    → replace_entry entry n (old ∷ env) ≡ some env'
    → ((names old entry n ≡ true) × (entry ∷ env ≡ env'))
      ⊎ ((names old entry n ≡ false)
          × ((back : Environment) × (replace_entry entry n env ≡ some back) × (old ∷ back ≡ env')))
unfolding replace_entry
replace_entry-cases entry old n env {env'} e = elim (Bool-cases (names old entry n)) [
  | inl here ↦ inl (here, some_injective (rw here at e))
  | inr there ↦ elim (Option-cases (replace_entry entry n env)) [
    | inl none_such ↦ absurd (let f = rw (there, none_such) at e in cc)
    | inr (back, found) ↦ inr (there, (back, found, some_injective (rw (there, found) at e)))
  ]
]

length-replace_entry :
    (entry : Bytes) (n : ℕ) (env : Environment) {env' : Environment}
    → replace_entry entry n env ≡ some env'
    → length env' ≡ length env
unfolding replace_entry
length-replace_entry entry n [] e = cc
length-replace_entry entry n (old ∷ env) {env'} e =
    elim (replace_entry-cases entry old n env {env' = env'} e) [
      | inl (here, same) ↦ ap length (sym same)
      | inr (there, (back, found, same)) ↦
          ap length (sym same) ∙ ap suc (length-replace_entry entry n env {env' = back} found)
    ]

pub length-set_env :
    (entry : Bytes) (env : Environment) → length env ≤ 255 → length (set_env entry env) ≤ 255
unfolding set_env
length-set_env entry env h = elim (Option-cases (str_chr entry b'=')) [
  | inl plain ↦ rw (plain, set_env) h
  | inr (eq, e) ↦ elim (Option-cases (replace_entry entry (str_len entry - str_len eq) env)) [
    | inr (env', f) ↦
        rw (e, set_env)
          (rw f (
            omega
              (arith, length-replace_entry entry (str_len entry - str_len eq) env {env' = env'} f)))
    | inl f ↦ rw (e, set_env) (rw f (ground (arith, length-append env (entry ∷ []))))
  ]
]
