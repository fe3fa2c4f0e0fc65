-- ===== src/Deflate/Inflate/Endless.antt =====
-- include/deflate.h: what the loop over the symbols does where the source has ended.
use qoot.Base.{
  ◌≤◌, ◌∷◌, ◌++◌, Bytes, length, length-drop, drop, leb, ℕ, zero, suc, ◌+◌, ◌-◌, ◌%◌, ◌<◌, ◌≡◌,
  refl, ap, subst, true, false, inl, inr, [], some, get_or, ltb, ◌==◌, Bool-cases, if◌then◌else◌,
  arith,
}
use qoot.Deflate.{Bits, Huff, decode_loop, inf_bits_read, inf_huff_decode}
use qoot.Base.Int.{ℤ, pos, negsuc}
use qoot.Deflate.Output.Window.{is_failure}
use qoot.Deflate.Output.{
  write_loop, inf_flush, Result, done, error, stuck, ◌>>=◌, Writer, Out, inf_emit,
}
use qoot.Deflate.Inflate.{next_symbol, symbol_loop}

-- A reader at the end of its source with no bit left.
abbrev pub exhausted : ℕ → Bits
exhausted buf = record { src = []; buf = buf; cnt = 0 }

inf_bits_read-exhausted : (buf : ℕ) → inf_bits_read (exhausted buf) 1 ≡ (0, exhausted buf)
unfolding inf_bits_read
inf_bits_read-exhausted buf = refl

-- Missing bits read as zeros, which are the first code.
decode_loop-exhausted :
    (n k : ℕ) (h : Huff) (len buf : ℕ)
    → k < n
    → 0 < get_or h.count (len + k) 0
    → decode_loop n h len (exhausted buf) 0 0 0 ≡ (some (get_or h.symbol 0 0), exhausted buf)
unfolding decode_loop
decode_loop-exhausted zero k h len buf lt present = absurd (omega arith)
decode_loop-exhausted (suc n) k h len buf lt present =
    rw (inf_bits_read-exhausted buf) (elim (Bool-cases (ltb 0 (0 + get_or h.count len 0))) [
      | inl found ↦ rw (found, if◌then◌else◌) refl
      | inr absent ↦
          let here : get_or h.count len 0 ≡ 0 = ground arith in
          let later : (k == 0) ≡ false = elim (Bool-cases (k == 0)) [
            | inr behind ↦ behind
            | inl now ↦
                let same : len + k ≡ len = ground arith in
                let missing = ap (λ i. get_or h.count i 0) same in absurd (omega arith)
          ] in
          let place : len + k ≡ len + 1 + (k - 1) = ground arith in
          rw here (
            decode_loop-exhausted n (k - 1) h (len + 1) buf (ground arith)
              (subst (λ i. 0 < get_or h.count i 0) place present))
    ])

inf_huff_decode-exhausted :
    (h : Huff) (k buf : ℕ)
    → k < 15
    → 0 < get_or h.count (1 + k) 0
    → inf_huff_decode (exhausted buf) h ≡ (some (get_or h.symbol 0 0), exhausted buf)
unfolding inf_huff_decode
inf_huff_decode-exhausted h k buf lt present = decode_loop-exhausted 15 k h 1 buf lt present

-- Every write of some bytes makes progress.
abbrev pub Progresses : Writer → Type 0
Progresses w = (s : w.State) (c : ℕ) (p : Bytes) → is_failure (w.sys_write s (c ∷ p)).0 ≡ false

module _ (w : Writer) where
  next_symbol-exhausted :
      (lit_tree dist_tree : Huff) (k buf : ℕ) (out : Out w.State)
      → k < 15
      → 0 < get_or lit_tree.count (1 + k) 0
      → get_or lit_tree.symbol 0 0 < 256
      → next_symbol w lit_tree dist_tree (exhausted buf) out ≡ (
          inf_emit w out (get_or lit_tree.symbol 0 0) >>= λ out'.
          done (false, (exhausted buf, out')))
  unfolding next_symbol
  next_symbol-exhausted lit_tree dist_tree k buf out lt present small =
      let byte : get_or lit_tree.symbol 0 0 % 256 ≡ get_or lit_tree.symbol 0 0 = omega arith in
      let literal : ltb (get_or lit_tree.symbol 0 0) 256 ≡ true = ground arith in
      rw
        (
          inf_huff_decode-exhausted lit_tree k buf lt present,
          next_symbol,
          literal,
          if◌then◌else◌,
          byte,
        )
        (ap (λ r. inf_emit w out (get_or lit_tree.symbol 0 0) >>= λ out'. done (false, (r.1, out')))
          (inf_huff_decode-exhausted lit_tree k buf lt present))

  one_write :
      (f : ℕ) (c : ℕ) (p : Bytes) (z : ℤ) (s : w.State)
      → is_failure z ≡ false
      → ((n : ℕ) → (o : w.State) × (write_loop w f (drop (suc n) (c ∷ p)) s ≡ done o))
      → (o : w.State) × ((elim z as (λ _. Result w.State) [
        | pos (suc n) ↦ write_loop w f (drop (suc n) (c ∷ p)) s
        | _ ↦ error
      ])
          ≡ done o)
  one_write f c p (pos zero) s e later = cc
  one_write f c p (negsuc n) s e later = cc
  one_write f c p (pos (suc n)) s e later = later n

  write_loop-done :
      (f : ℕ) (p : Bytes) (s : w.State)
      → Progresses w
      → length p ≤ f
      → (o : w.State) × (write_loop w f p s ≡ done o)
  unfolding write_loop
  write_loop-done f [] s works h = (s, refl)
  write_loop-done zero (c ∷ p) s works h = absurd (omega arith)
  write_loop-done (suc f) (c ∷ p) s works h =
      one_write f c p (w.sys_write s (c ∷ p)).0 (w.sys_write s (c ∷ p)).1 (works s c p) (λ n.
        write_loop-done f (drop n p) (w.sys_write s (c ∷ p)).1 works
          (omega (arith, length-drop n p)))

  inf_emit-done :
      (o : Out w.State) (byte : ℕ)
      → Progresses w
      → (o' : Out w.State) × (inf_emit w o byte ≡ done o')
  unfolding inf_emit inf_flush
  inf_emit-done o byte works = elim (Bool-cases (leb 8192 (length (o.outbuf ++ byte ∷ [])))) [
    | inr room ↦ rw room (_, refl)
    | inl full ↦
        let (fd, e) =
          write_loop-done (length (o.outbuf ++ byte ∷ [])) (o.outbuf ++ byte ∷ []) o.fd works
            (omega arith) in
        rw (full, e) (_, refl)
  ]

  -- Where the first code stands for a byte, and every write makes progress, the loop over the symbols
  -- neither returns nor fails once the source has ended: whatever fuel it has, it uses it up. Missing
  -- bits read as the code of that byte.
  pub symbol_loop_endless :
      (lit_tree dist_tree : Huff) (k buf : ℕ)
      → Progresses w
      → k < 15
      → 0 < get_or lit_tree.count (1 + k) 0
      → get_or lit_tree.symbol 0 0 < 256
      → (f : ℕ) (out : Out w.State) → symbol_loop w f lit_tree dist_tree (exhausted buf) out ≡ stuck
  unfolding symbol_loop
  symbol_loop_endless lit_tree dist_tree k buf works lt present small zero out = refl
  symbol_loop_endless lit_tree dist_tree k buf works lt present small (suc f) out =
      let (out', e) = inf_emit-done out (get_or lit_tree.symbol 0 0) works in
      rw (next_symbol-exhausted lit_tree dist_tree k buf out lt present small, e)
        (symbol_loop_endless lit_tree dist_tree k buf works lt present small f out')
