-- ===== src/Str/Search.antt =====
-- include/string.h: `str_chr`, `str_rchr` and `str_str` find what they look for.
use qoot.Base.{
  ℕ, ◌≤◌, ◌≡◌, ◌≢◌, ◌⊎◌, inl, inr, refl, ap, sym, ◌∙◌, false, [], ◌∷◌, ◌++◌, Option, none, some,
  Bytes, length, length-append, All, arith, ◌==◌, Bool-cases, if◌then◌else◌,
}
use qoot.Str.{IsCString, peek, str_chr, str_rchr, rchr_loop, str_str, str_loop, unmatched}

-- No byte of the string is `c`.
abbrev pub Lacks : ℕ → Bytes → Type 0
Lacks c = All (λ x. x ≢ c)

pub str_chr-some :
    (s : Bytes) (c : ℕ) {r : Bytes}
    → c ≢ 0
    → str_chr s c ≡ some r
    → (p t : Bytes) × (s ≡ p ++ r) × (r ≡ c ∷ t) × Lacks c p
unfolding str_chr
str_chr-some [] c nz h = absurd (ground arith)
str_chr-some (x ∷ s) c {r} nz h = elim (Bool-cases (x == c)) [
  | inl same ↦ ([], s, ground arith, ground arith, tt)
  | inr differ ↦
      let (p, t, e, f, l) = str_chr-some s c {r = r} nz (rw (differ, if◌then◌else◌) at h) in
      (x ∷ p, t, ap (◌∷◌ x) e, f, (ground arith, l))
]

pub str_chr_skip : (p t : Bytes) (c : ℕ) → Lacks c p → str_chr (p ++ c ∷ t) c ≡ some (c ∷ t)
unfolding str_chr
str_chr_skip [] t c l = ground arith
str_chr_skip (x ∷ p) t c l = ground (arith, str_chr_skip p t c l.1, l.0)

pub str_chr-none : (s : Bytes) (c : ℕ) → c ≢ 0 → str_chr s c ≡ none → Lacks c s
unfolding str_chr
str_chr-none [] c nz h = tt
str_chr-none (x ∷ s) c nz h = (ground arith, str_chr-none s c nz (ground arith))

pub Lacks-str_chr : (s : Bytes) (c : ℕ) → c ≢ 0 → Lacks c s → str_chr s c ≡ none
unfolding str_chr
Lacks-str_chr [] c nz l = ground arith
Lacks-str_chr (x ∷ s) c nz l = ground (arith, Lacks-str_chr s c nz l.1, l.0)

rchr_loop-Lacks :
    (s : Bytes) (c : ℕ) (last : Option Bytes) → c ≢ 0 → Lacks c s → rchr_loop s c last ≡ last
unfolding rchr_loop
rchr_loop-Lacks [] c last nz l = ground arith
rchr_loop-Lacks (x ∷ s) c last nz l = ground (arith, rchr_loop-Lacks s c last nz l.1, l.0)

rchr_loop_skip :
    (p t : Bytes) (c : ℕ) (last : Option Bytes)
    → c ≢ 0
    → Lacks c t
    → rchr_loop (p ++ c ∷ t) c last ≡ some (c ∷ t)
unfolding rchr_loop
rchr_loop_skip [] t c last nz l = ground (arith, rchr_loop-Lacks t c (some (c ∷ t)) nz l)
rchr_loop_skip (x ∷ p) t c last nz l = rchr_loop_skip p t c _ nz l

-- `str_rchr` points at the last occurrence of a byte that is there.
pub str_rchr_last :
    (p t : Bytes) (c : ℕ) → c ≢ 0 → Lacks c t → str_rchr (p ++ c ∷ t) c ≡ some (c ∷ t)
unfolding str_rchr
str_rchr_last p t c = rchr_loop_skip p t c none

pub str_rchr-Lacks : (s : Bytes) (c : ℕ) → c ≢ 0 → Lacks c s → str_rchr s c ≡ none
unfolding str_rchr
str_rchr-Lacks s c = rchr_loop-Lacks s c none

-- Every string is cut at its last occurrence of `c`, or has none.
pub last_cut : (s : Bytes) (c : ℕ) → Lacks c s ⊎ ((p t : Bytes) × (s ≡ p ++ c ∷ t) × Lacks c t)
last_cut [] c = inl tt
last_cut (x ∷ s) c = elim (last_cut s c) [
  | inr (p, t, e, l) ↦ inr (x ∷ p, t, ap (◌∷◌ x) e, l)
  | inl l ↦ elim (Bool-cases (x == c)) [
    | inl same ↦ inr ([], s, ground arith, l)
    | inr differ ↦ inl (ground arith, l)
  ]
]

-- The inner loop consumes the needle exactly where it stands.
unmatched_skip : (n t : Bytes) → unmatched (n ++ t) n ≡ []
unfolding unmatched
unmatched_skip [] [] = refl
unmatched_skip [] (x ∷ t) = refl
unmatched_skip (y ∷ n) t = ground (arith, unmatched_skip n t)

unmatched_done : (h n : Bytes) → IsCString n → peek (unmatched h n) ≡ 0 → (t : Bytes) × (h ≡ n ++ t)
unfolding unmatched
unmatched_done h [] c e = (h, refl)
unmatched_done [] (y ∷ n) c e = absurd (ground arith)
unmatched_done (x ∷ h) (y ∷ n) c e = elim (Bool-cases (x == y)) [
  | inl same ↦
      let (t, f) = unmatched_done h n c.1 (rw (same, if◌then◌else◌) at e) in (t, ground (arith, f))
  | inr differ ↦ absurd (ground arith)
]

-- The text that `str_loop` returns begins with the needle and is a suffix of the haystack.
str_loop-some :
    (h n : Bytes) {r : Bytes}
    → IsCString n
    → str_loop h n ≡ some r
    → (p t : Bytes) × (h ≡ p ++ r) × (r ≡ n ++ t)
unfolding str_loop
str_loop-some [] n c e = absurd (cc)
str_loop-some (x ∷ h) n {r} c e = elim (Bool-cases (peek (unmatched (x ∷ h) n) == 0)) [
  | inl found ↦
      let (t, f) = unmatched_done (x ∷ h) n c (ground arith) in
      let here : r ≡ x ∷ h = ground arith in ([], t, sym here, here ∙ f)
  | inr differ ↦
      let (p, t, f, g) = str_loop-some h n {r = r} c (rw (differ, if◌then◌else◌) at e) in
      (x ∷ p, t, ap (◌∷◌ x) f, g)
]

str_loop_find :
    (p n t : Bytes)
    → n ≢ []
    → (r : Bytes) × (str_loop (p ++ (n ++ t)) n ≡ some r) × (length (n ++ t) ≤ length r)
unfolding str_loop
str_loop_find p [] t ne = absurd (ne refl)
str_loop_find [] (y ∷ n) t ne = (y ∷ (n ++ t), rw (unmatched_skip (y ∷ n) t, str_loop), omega arith)
str_loop_find (x ∷ p) (y ∷ n) t ne =
    let whole = p ++ y ∷ (n ++ t) in
    elim (Bool-cases (peek (unmatched (x ∷ whole) (y ∷ n)) == 0)) [
      | inl found ↦ (x ∷ whole, rw (found, str_loop), omega (arith, length-append p (y ∷ (n ++ t))))
      | inr differ ↦
          let (r, e, le) = str_loop_find p (y ∷ n) t ne in (r, rw (differ, str_loop) e, le)
    ]

peek-IsCString : (y : ℕ) (n : Bytes) → IsCString (y ∷ n) → (peek (y ∷ n) == 0) ≡ false
peek-IsCString y n c = ground arith

-- A result of `str_str` is a suffix of the haystack that begins with the needle.
pub str_str_sound :
    (h n : Bytes) {r : Bytes}
    → IsCString n
    → str_str h n ≡ some r
    → (p t : Bytes) × (h ≡ p ++ r) × (r ≡ n ++ t)
unfolding str_str
str_str_sound h [] {r} c e = let here : r ≡ h = ground arith in ([], h, sym here, here)
str_str_sound h (y ∷ n) {r} c e =
    str_loop-some h (y ∷ n) {r = r} c (rw (peek-IsCString y n c, if◌then◌else◌) at e)

-- Where the needle occurs, `str_str` finds an occurrence, and none begins further left.
pub str_str_complete :
    (p n t : Bytes)
    → IsCString n
    → (r : Bytes) × (str_str (p ++ (n ++ t)) n ≡ some r) × (length (n ++ t) ≤ length r)
unfolding str_str
str_str_complete p [] t c = (p ++ t, refl, omega (arith, length-append p t))
str_str_complete p (y ∷ n) t c =
    rw (peek-IsCString y n c, if◌then◌else◌) (str_loop_find p (y ∷ n) t (ground arith))
