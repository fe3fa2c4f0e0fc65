-- ===== src/Streams.antt =====
-- The tools that read their input in pieces and look at each byte: the loop that they share.
-- tools/wc.c is its child Words, tools/tr.c its child Translate.
pub mod Words
pub mod Translate
use qoot.Base.{
  ℕ, zero, suc, ◌+◌, ◌<◌, ◌≤◌, ◌≡◌, refl, ap, sym, ◌∙◌, List, [], ◌∷◌, ◌++◌, Bytes, length,
  length-append, arith,
}
use qoot.Io.{Reader, Delivers, got, failed}

abbrev pub foldl {ℓ} : {A : Type ℓ} → (A → ℕ → A) → A → Bytes → A
foldl step a [] = a
foldl step a (c ∷ s) = foldl step (step a c) s

-- `while ((n = sys_read(fd, buf, size)) > 0)` with a loop over the bytes of `buf`, for at most `f`
-- reads.
unfoldable pub read_bytes {ℓ} : {A : Type ℓ} (k : Reader) → (A → ℕ → A) → ℕ → ℕ → k.State → A → A
read_bytes {A} k step size zero s a = a
read_bytes {A} k step size (suc f) s a =
    let r = k.sys_read s size in
    elim r.0 as (λ _. A) [
      | failed e ↦ a
      | got [] ↦ a
      | got (c ∷ buf) ↦ read_bytes k step size f r.1 (foldl step a (c ∷ buf))
    ]

foldl-append {ℓ} :
    {A : Type ℓ} (step : A → ℕ → A) (a : A) (front back : Bytes)
    → foldl step a (front ++ back) ≡ foldl step (foldl step a front) back
foldl-append step a [] back = refl
foldl-append step a (c ∷ front) back = foldl-append step (step a c) front back

-- The pieces make no difference.
pub read_bytes-foldl {ℓ} :
    {A : Type ℓ} (k : Reader) (d : Delivers k) (step : A → ℕ → A) (size f : ℕ) (s : k.State) (a : A)
    → 0 < size
    → length (d.content s) < f
    → read_bytes k step size f s a ≡ foldl step a (d.content s)
unfolding read_bytes
read_bytes-foldl k d step size zero s a h fuel = elim fuel [ ]
read_bytes-foldl {A = A} k d step size (suc f) s a h fuel =
    each (d.chunk s size) (d.delivers s size) (d.in_order s size) (d.ends s size h)
      (λ b. read_bytes-foldl k d step size f (k.sys_read s size).1 b h)
  where
    each :
        (b : Bytes)
        → (k.sys_read s size).0 ≡ got b
        → d.content s ≡ b ++ d.content (k.sys_read s size).1
        → (b ≡ [] → d.content s ≡ [])
        → ((a : A)
            → length (d.content (k.sys_read s size).1) < f
            → read_bytes k step size f (k.sys_read s size).1 a
              ≡ foldl step a (d.content (k.sys_read s size).1))
        → read_bytes k step size (suc f) s a ≡ foldl step a (d.content s)
    each [] g o e ih = rw (g, read_bytes, e refl)
    each (c ∷ b) g o e ih =
        let rest = d.content (k.sys_read s size).1 in
        let shorter : length rest < f = omega (arith, ap length o, length-append (c ∷ b) rest) in
        rw (g, read_bytes)
          (ih (foldl step a (c ∷ b)) shorter
            ∙ sym (foldl-append step a (c ∷ b) rest)
            ∙ ap (foldl step a) (sym o))
