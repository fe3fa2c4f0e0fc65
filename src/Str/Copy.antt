-- ===== src/Str/Copy.antt =====
-- include/string.h: how many bytes `str_ncpy` stores, and what a reader of the copy sees.
use qoot.Base.{
  ℕ, zero, suc, ◌-◌, ◌<◌, ◌≤◌, ◌≡◌, refl, ap, sym, ◌∙◌, set, dec_lt, length-drop, length-set, [],
  ◌∷◌, ◌++◌, Bytes, length, length-append, append_assoc, length-replicate, length-take, append-nil,
  take, drop, replicate, arith,
}
use qoot.Str.{IsCString, cstr, ncpy_copy, str_ncpy}

ncpy_copy_short :
    (src : Bytes) (n : ℕ) → length src < n → ncpy_copy src n ≡ (src ++ 0 ∷ [], n - length src)
unfolding ncpy_copy
ncpy_copy_short src zero h = elim h [ ]
ncpy_copy_short [] (suc n) h = ground arith
ncpy_copy_short (c ∷ src) (suc n) h = ground (arith, ncpy_copy_short src n)

ncpy_copy_long : (src : Bytes) (n : ℕ) → n ≤ length src → ncpy_copy src n ≡ (take n src, 0)
unfolding ncpy_copy
ncpy_copy_long src zero h = refl
ncpy_copy_long [] (suc n) h = elim h [ ]
ncpy_copy_long (c ∷ src) (suc n) h = ground (arith, ncpy_copy_long src n)

-- A source of `n` bytes or more fills exactly `n` bytes, with no terminator.
pub str_ncpy_long :
    (dest src : Bytes) (n : ℕ) → n ≤ length src → str_ncpy dest src n ≡ take n src ++ drop n dest
unfolding str_ncpy
str_ncpy_long dest src n h =
    let full : length (take n src) ≡ n = omega (arith, length-take n src) in
    rw (ncpy_copy_long src n h, str_ncpy, append-nil, full)

-- A shorter source is padded with NULs to `n + 1` bytes: one more than the bound.
pub str_ncpy_short :
    (dest src : Bytes) (n : ℕ)
    → length src < n
    → str_ncpy dest src n ≡ src ++ replicate (suc n - length src) 0 ++ drop (suc n) dest
unfolding str_ncpy
str_ncpy_short dest src n h =
    let zeros : Bytes = replicate (suc n - length src) 0 in
    let full : length (src ++ zeros) ≡ suc n =
      omega (arith, length-append src zeros, length-replicate {A = ℕ} (suc n - length src) 0) in
    let more : suc n - length src ≡ suc (n - length src) = omega arith in
    let pad : (src ++ 0 ∷ []) ++ replicate (n - length src) 0 ≡ src ++ zeros =
      append_assoc src (0 ∷ []) (replicate (n - length src) 0)
      ∙ ap (λ k. src ++ replicate k 0) (sym more) in
    rw (ncpy_copy_short src n h, str_ncpy, pad, full)

pub cstr-append_nul : (s t : Bytes) → IsCString s → cstr (s ++ 0 ∷ t) ≡ s
unfolding cstr
cstr-append_nul [] t h = refl
cstr-append_nul (c ∷ s) t h = ground (arith, cstr-append_nul s t h.1)

cstr-set_nul : (u t : Bytes) (i : ℕ) → IsCString u → length u ≤ i → cstr (set (u ++ 0 ∷ t) i 0) ≡ u
unfolding cstr
cstr-set_nul [] t zero c h = refl
cstr-set_nul [] t (suc i) c h = refl
cstr-set_nul (x ∷ u) t zero c h = absurd (omega arith)
cstr-set_nul (x ∷ u) t (suc i) c h = ground (arith, cstr-set_nul u t i c.1, c.0)

cstr_cut :
    (u rest : Bytes) (i : ℕ)
    → IsCString u
    → length u ≡ i
    → 0 < length rest
    → cstr (set (u ++ rest) i 0) ≡ u
unfolding cstr
cstr_cut [] [] i c e h = absurd (omega arith)
cstr_cut [] (x ∷ rest) zero c e h = refl
cstr_cut [] (x ∷ rest) (suc i) c e h = absurd (omega arith)
cstr_cut (x ∷ u) rest zero c e h = absurd (omega arith)
cstr_cut (x ∷ u) rest (suc i) c e h = ground (arith, cstr_cut u rest i c.1, c.0)

pub take-IsCString : (n : ℕ) (s : Bytes) → IsCString s → IsCString (take n s)
take-IsCString zero s h = tt
take-IsCString (suc n) [] h = tt
take-IsCString (suc n) (c ∷ s) h = (h.0, take-IsCString n s h.1)

pub take_all : (n : ℕ) (s : Bytes) → length s ≤ n → take n s ≡ s
take_all zero [] h = refl
take_all zero (c ∷ s) h = absurd (omega arith)
take_all (suc n) [] h = refl
take_all (suc n) (c ∷ s) h = ap (◌∷◌ c) (take_all n s (omega arith))

module _ (dest src : Bytes) (n : ℕ) (c : IsCString src) (size : length dest ≡ suc n) where
  Copied : Type 0
  Copied =
      (cstr (set (str_ncpy dest src n) n 0) ≡ take n src)
      × (length (set (str_ncpy dest src n) n 0) ≡ suc n)

  short_copy : length src < n → Copied
  unfolding Copied
  short_copy short =
      let zeros : Bytes = replicate (n - length src) 0 in
      let after = drop (suc n) dest in
      let more : suc n - length src ≡ suc (n - length src) = omega arith in
      let copy : str_ncpy dest src n ≡ src ++ 0 ∷ (zeros ++ after) =
        str_ncpy_short dest src n short
        ∙ ap (λ k. src ++ replicate k 0 ++ after) more
        ∙ append_assoc src (0 ∷ zeros) after in
      let whole = cstr-set_nul src (zeros ++ after) n c (omega arith) in
      let lengths : length (set (src ++ 0 ∷ (zeros ++ after)) n 0) ≡ suc n = omega (
        arith,
        length-set (src ++ 0 ∷ (zeros ++ after)) n 0,
        length-append src (0 ∷ (zeros ++ after)),
        length-append zeros after,
        length-replicate {A = ℕ} (n - length src) 0,
        length-drop (suc n) dest,
      ) in
      rw copy (whole ∙ sym (take_all n src (omega arith)), lengths)

  long_copy : n ≤ length src → Copied
  unfolding Copied
  long_copy long =
      let kept : Bytes = take n src in
      let after : Bytes = drop n dest in
      let full : length kept ≡ n = omega (arith, length-take n src) in
      let room : 0 < length after = omega (arith, length-drop n dest) in
      let lengths : length (set (kept ++ after) n 0) ≡ suc n =
        omega
          (arith, length-set (kept ++ after) n 0, length-append kept after, length-drop n dest) in
      rw (str_ncpy_long dest src n long)
        (cstr_cut kept after n (take-IsCString n src c) full room, lengths)

-- The idiom `str_ncpy(d, s, m - 1); d[m - 1] = '\0';` on an array of `m` bytes: it stays inside the
-- array, and what is read back is `s`, cut to `m - 1` bytes.
pub terminated_copy :
    (dest src : Bytes) (n : ℕ)
    → IsCString src
    → length dest ≡ suc n
    → (cstr (set (str_ncpy dest src n) n 0) ≡ take n src)
      × (length (set (str_ncpy dest src n) n 0) ≡ suc n)
unfolding Copied
terminated_copy dest src n c size = elim (dec_lt (length src) n) [
  | yes short ↦ short_copy dest src n c size short
  | no long ↦ long_copy dest src n c size (omega arith)
]

-- What is read back from a copy of a shorter string is the string.
pub cstr-str_ncpy :
    (dest src : Bytes) (n : ℕ) → IsCString src → length src < n → cstr (str_ncpy dest src n) ≡ src
cstr-str_ncpy dest src n c short =
    let more : suc n - length src ≡ suc (n - length src) = omega arith in
    let after = drop (suc n) dest in
    let copy : str_ncpy dest src n ≡ src ++ 0 ∷ (replicate (n - length src) 0 ++ after) =
      str_ncpy_short dest src n short
      ∙ ap (λ k. src ++ replicate k 0 ++ after) more
      ∙ append_assoc src (0 ∷ replicate (n - length src) 0) after in
    rw copy (cstr-append_nul src (replicate (n - length src) 0 ++ after) c)
