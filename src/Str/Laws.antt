-- ===== src/Str/Laws.antt =====
-- include/string.h: comparison is the lexicographic order of the bytes, and the prefix and suffix
-- tests say what their names say.
use qoot.Base.{
  ℕ, zero, suc, ◌-◌, ◌<◌, ◌≤◌, ◌≡◌, ◌↔◌, ◌⊎◌, inl, inr, refl, ap, true, [], ◌∷◌, ◌++◌, Bytes,
  length, length-append, drop, take, take-append-drop, sym, ◌∙◌, arith, ◌==◌, Bool-cases,
  if◌then◌else◌,
}
use qoot.Base.Int.{ℤ, pos, negsuc, ◌≤ℤ◌}
use qoot.Str.{IsCString, str_len, str_cmp, str_eq, is_zero, starts_with, ends_with}

pub str_len-length : (s : Bytes) → str_len s ≡ length s
unfolding str_len
str_len-length [] = refl
str_len-length (c ∷ s) = ap suc (str_len-length s)

-- The order of a dictionary, on byte values.
abbrev pub LexLe : Bytes → Bytes → Type 0
LexLe [] b = Unit
LexLe (x ∷ a) [] = ⊥
LexLe (x ∷ a) (y ∷ b) = (x < y) ⊎ ((x ≡ y) × LexLe a b)

str_cmp_self : (a : Bytes) → str_cmp a a ≡ pos 0
unfolding str_cmp
str_cmp_self [] = refl
str_cmp_self (x ∷ a) = ground (arith, str_cmp_self a)

str_cmp-eq : (a b : Bytes) → IsCString a → IsCString b → str_cmp a b ≡ pos 0 → a ≡ b
unfolding str_cmp
str_cmp-eq [] [] ha hb h = refl
str_cmp-eq [] (y ∷ b) ha hb h = ground arith
str_cmp-eq (x ∷ a) [] ha hb h = ground arith
str_cmp-eq (x ∷ a) (y ∷ b) ha hb h = ground (arith, str_cmp-eq a b ha.1 hb.1)

-- Two C strings compare as 0 exactly when they are the same bytes.
pub str_cmp-zero_iff : (a b : Bytes) → IsCString a → IsCString b → (str_cmp a b ≡ pos 0) ↔ (a ≡ b)
str_cmp-zero_iff a b ha hb = (str_cmp-eq a b ha hb, λ e. rw e (str_cmp_self b))

is_zero_iff : (i : ℤ) → (is_zero i ≡ true) ↔ (i ≡ pos 0)
is_zero_iff (pos n) = ground arith
is_zero_iff (negsuc n) = ground arith

pub str_eq_iff : (a b : Bytes) → IsCString a → IsCString b → (str_eq a b ≡ true) ↔ (a ≡ b)
unfolding str_eq
str_eq_iff a b ha hb =
    let i = is_zero_iff (str_cmp a b) in
    let e = str_cmp-zero_iff a b ha hb in (λ h. e.0 (i.0 h), λ h. i.1 (e.1 h))

str_cmp-le : (a b : Bytes) → IsCString a → IsCString b → str_cmp a b ≤ℤ pos 0 → LexLe a b
unfolding str_cmp
str_cmp-le [] b ha hb h = tt
str_cmp-le (x ∷ a) [] ha hb h = ground arith
str_cmp-le (x ∷ a) (y ∷ b) ha hb h = ground (arith, str_cmp-le a b ha.1 hb.1)

le-str_cmp : (a b : Bytes) → LexLe a b → str_cmp a b ≤ℤ pos 0
unfolding str_cmp
le-str_cmp [] [] h = omega arith
le-str_cmp [] (y ∷ b) h = ground arith
le-str_cmp (x ∷ a) [] h = absurd h
le-str_cmp (x ∷ a) (y ∷ b) h = ground (arith, le-str_cmp a b)

-- The sign of a comparison of C strings tells the lexicographic order of their bytes.
pub str_cmp-le_iff : (a b : Bytes) → IsCString a → IsCString b → (str_cmp a b ≤ℤ pos 0) ↔ LexLe a b
str_cmp-le_iff a b ha hb = (str_cmp-le a b ha hb, le-str_cmp a b)

pub LexLe-trans : (a b c : Bytes) → LexLe a b → LexLe b c → LexLe a c
LexLe-trans [] b c h k = tt
LexLe-trans (x ∷ a) [] c h k = absurd h
LexLe-trans (x ∷ a) (y ∷ b) [] h k = absurd k
LexLe-trans (x ∷ a) (y ∷ b) (z ∷ c) h k = ground (arith, LexLe-trans a b c)

pub LexLe-total : (a b : Bytes) → LexLe a b ⊎ LexLe b a
LexLe-total [] b = inl tt
LexLe-total (x ∷ a) [] = inr tt
LexLe-total (x ∷ a) (y ∷ b) = grind (arith, LexLe-total a b)

-- A prefix of `s`, with what follows it.
abbrev pub Begins : Bytes → Bytes → Type 0
Begins s p = (t : Bytes) × (s ≡ p ++ t)

starts_with-Begins : (s p : Bytes) → starts_with s p ≡ true → Begins s p
unfolding starts_with
starts_with-Begins s [] h = (s, refl)
starts_with-Begins [] (y ∷ p) h = absurd (cc)
starts_with-Begins (x ∷ s) (y ∷ p) h = elim (Bool-cases (x == y)) [
  | inl same ↦
      let (t, e) = starts_with-Begins s p (rw (same, if◌then◌else◌) at h) in (t, ground (arith, e))
  | inr differ ↦ absurd (ground arith)
]

pub starts_with-append : (p t : Bytes) → starts_with (p ++ t) p ≡ true
unfolding starts_with
starts_with-append [] t = refl
starts_with-append (y ∷ p) t = ground (arith, starts_with-append p t)

-- `starts_with` holds exactly of the strings that the prefix begins.
pub starts_with_iff : (s p : Bytes) → (starts_with s p ≡ true) ↔ Begins s p
starts_with_iff s p = (starts_with-Begins s p, λ b. rw b.1 (starts_with-append p b.0))

drop-IsCString : (n : ℕ) (s : Bytes) → IsCString s → IsCString (drop n s)
drop-IsCString zero s h = h
drop-IsCString (suc n) [] h = tt
drop-IsCString (suc n) (c ∷ s) h = drop-IsCString n s h.1

drop-append : (p t : Bytes) → drop (length p) (p ++ t) ≡ t
drop-append [] t = refl
drop-append (c ∷ p) t = drop-append p t

ends_with-Ends :
    (s x : Bytes) → IsCString s → IsCString x → ends_with s x ≡ true → (p : Bytes) × (s ≡ p ++ x)
unfolding ends_with
ends_with-Ends s x hs hx h =
    let k = str_len s - str_len x in
    let same : drop k s ≡ x =
      (str_eq_iff (drop k s) x (drop-IsCString k s hs) hx).0 (ground arith) in
    (take k s, sym (take-append-drop k s) ∙ ap (λ t. take k s ++ t) same)

Ends-ends_with : (p x : Bytes) → ends_with (p ++ x) x ≡ true
unfolding ends_with
Ends-ends_with p x =
    let k : str_len (p ++ x) - str_len x ≡ length p =
      omega (arith, str_len-length (p ++ x), str_len-length x, length-append p x) in
    let le : str_len x ≤ str_len (p ++ x) =
      omega (arith, str_len-length (p ++ x), str_len-length x, length-append p x) in
    let same : drop (str_len (p ++ x) - str_len x) (p ++ x) ≡ x = rw k (drop-append p x) in
    ground (arith, same, str_cmp_self x)

-- `ends_with` holds exactly of the strings that the suffix ends.
pub ends_with_iff :
    (s x : Bytes)
    → IsCString s
    → IsCString x
    → (ends_with s x ≡ true) ↔ ((p : Bytes) × (s ≡ p ++ x))
ends_with_iff s x hs hx = (ends_with-Ends s x hs hx, λ e. rw e.1 (Ends-ends_with e.0 x))
