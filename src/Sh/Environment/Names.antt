-- ===== src/Sh/Environment/Names.antt =====
-- tools/sh.c: the names of the variables and the entries that they name.
use qoot.Base.{
  ℕ, suc, ◌<◌, ◌≡◌, ◌≢◌, inl, inr, refl, ap, sym, ◌∙◌, true, false, [], ◌∷◌, ◌++◌, some, Bytes,
  length, drop, All, All-imply, arith, ◌==◌, if◌then◌else◌, Bool-cases,
}
use qoot.Sh.Environment.{names}
use qoot.Str.{IsCString, str_chr, str_ncmp}

-- A byte that may stand in the name of a variable, and a name.
abbrev pub IsNameByte : ℕ → Type 0
IsNameByte c = (0 < c) × (c < 256) × (c ≢ b'=')

abbrev pub IsName : Bytes → Type 0
IsName = All IsNameByte

pub names_step :
    (entry name : Bytes) (x y n : ℕ)
    → names (x ∷ entry) (y ∷ name) (suc n) ≡ (if x == y then names entry name n else false)
unfolding names str_ncmp
names_step entry name x y n = ground arith

pub names-own : (name value : Bytes) → names (name ++ b'=' ∷ value) name (length name) ≡ true
unfolding names str_ncmp
names-own [] value = refl
names-own (c ∷ name) value = ground (arith, names-own name value)

pub names-other :
    (a b value : Bytes)
    → IsName a
    → IsName b
    → a ≢ b
    → names (a ++ b'=' ∷ value) b (length b) ≡ false
unfolding names str_ncmp
names-other [] [] value ha hb ne = absurd (ne refl)
names-other [] (y ∷ b) value ha hb ne = ground arith
names-other (x ∷ a) [] value ha hb ne = ground arith
names-other (x ∷ a) (y ∷ b) value ha hb ne = elim (Bool-cases (x == y)) [
  | inr differ ↦ names_step (a ++ b'=' ∷ value) b x y (length b) ∙ rw (differ) refl
  | inl same ↦
      names_step (a ++ b'=' ∷ value) b x y (length b)
      ∙ rw (same) (
          names-other a b value ha.1 hb.1
            (λ e. ne (ap (◌∷◌ x) e ∙ ap (λ (c : ℕ). c ∷ b) (ground arith))))
]

pub names_sound :
    (entry name : Bytes)
    → IsName name
    → names entry name (length name) ≡ true
    → entry ≡ name ++ b'=' ∷ drop (suc (length name)) entry
unfolding names str_ncmp
names_sound [] [] h e = absurd (ground arith)
names_sound (x ∷ entry) [] h e = ground arith
names_sound [] (y ∷ name) h e = absurd (ground arith)
names_sound (x ∷ entry) (y ∷ name) h e =
    let step = sym (names_step entry name x y (length name)) ∙ e in
    elim (Bool-cases (x == y)) [
      | inr differ ↦ absurd (let f = rw differ at step in cc)
      | inl same ↦
          ap (◌∷◌ x) (names_sound entry name h.1 (rw same at step))
          ∙ ap (λ (c : ℕ). c ∷ (name ++ b'=' ∷ drop (suc (length name)) entry)) (ground arith)
    ]

pub names_front :
    (entry key rest : Bytes) → names entry (key ++ rest) (length key) ≡ names entry key (length key)
unfolding names str_ncmp
names_front entry [] rest = refl
names_front [] (y ∷ key) rest = refl
names_front (x ∷ entry) (y ∷ key) rest = ground (arith, names_front entry key rest)

pub drop-name : (name value : Bytes) → drop (suc (length name)) (name ++ b'=' ∷ value) ≡ value
drop-name [] value = refl
drop-name (c ∷ name) value = drop-name name value

pub str_chr-name :
    (name value : Bytes) → IsName name → str_chr (name ++ b'=' ∷ value) b'=' ≡ some (b'=' ∷ value)
unfolding str_chr
str_chr-name [] value h = refl
str_chr-name (c ∷ name) value h = ground (arith, str_chr-name name value h.1)

pub IsName-IsCString : (name : Bytes) → IsName name → IsCString name
IsName-IsCString name h =
    All-imply {P = IsNameByte} {Q = λ c. (0 < c) × (c < 256)} name (λ c b. (b.0, b.1)) h
