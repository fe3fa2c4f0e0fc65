-- ===== src/Digest/Blocks.antt =====
-- include/md5.h and include/sha256.h: the bytes that are fed one by one against the blocks of the
-- whole text.
use qoot.Base.{
  take_whole, ℕ, zero, suc, ◌+◌, ◌*◌, ◌/◌, ◌%◌, ◌^◌, ◌<◌, ◌≤◌, ◌≡◌, ◌≢◌, refl, ap, sym, ◌∙◌, inl,
  inr, List, [], ◌∷◌, ◌++◌, append_assoc, append-nil, Bytes, length, length-append, length-set,
  length-drop, take, drop, set, ◌==◌, Bool-cases, if◌then◌else◌, arith,
}
use qoot.Digest.{Context, update_byte, update}

take-append : (n : ℕ) (xs ys : Bytes) → n ≤ length xs → take n (xs ++ ys) ≡ take n xs
take-append zero xs ys h = refl
take-append (suc n) [] ys h = absurd (omega arith)
take-append (suc n) (x ∷ xs) ys h = ap (◌∷◌ x) (take-append n xs ys (omega arith))

drop-append : (n : ℕ) (xs ys : Bytes) → n ≤ length xs → drop n (xs ++ ys) ≡ drop n xs ++ ys
drop-append zero xs ys h = refl
drop-append (suc n) [] ys h = absurd (omega arith)
drop-append (suc n) (x ∷ xs) ys h = drop-append n xs ys (omega arith)

drop_whole : (n : ℕ) (xs : Bytes) → length xs ≤ n → drop n xs ≡ []
drop_whole zero [] h = refl
drop_whole zero (x ∷ xs) h = absurd (omega arith)
drop_whole (suc n) [] h = refl
drop_whole (suc n) (x ∷ xs) h = drop_whole n xs (omega arith)

take-set : (xs : Bytes) (i v : ℕ) → i < length xs → take (i + 1) (set xs i v) ≡ take i xs ++ v ∷ []
take-set [] i v h = absurd (omega arith)
take-set (x ∷ xs) zero v h = refl
take-set (x ∷ xs) (suc i) v h =
    let next : suc i + 1 ≡ suc (i + 1) = omega arith in
    rw next (ap (◌∷◌ x) (take-set xs i v (omega arith)))

drop-drop : (m n : ℕ) (xs : Bytes) → drop m (drop n xs) ≡ drop (n + m) xs
drop-drop m zero xs = let same : 0 + m ≡ m = omega arith in rw same refl
drop-drop zero (suc n) [] = let same : suc n + 0 ≡ suc n = omega arith in rw same refl
drop-drop (suc m) (suc n) [] =
    let same : suc n + suc m ≡ suc (n + suc m) = omega arith in rw same refl
drop-drop m (suc n) (x ∷ xs) =
    let same : suc n + m ≡ suc (n + m) = omega arith in rw same (drop-drop m n xs)

module _ (transform : List ℕ → Bytes → List ℕ) where
  -- The first n blocks of 64 bytes, one after the other.
  unfoldable pub digest_blocks : ℕ → List ℕ → Bytes → List ℕ
  digest_blocks zero s bytes = s
  digest_blocks (suc n) s bytes = digest_blocks n (transform s (take 64 bytes)) (drop 64 bytes)

  digest_blocks-append :
      (n : ℕ) (s : List ℕ) (bytes more : Bytes)
      → 64 * n ≤ length bytes
      → digest_blocks n s (bytes ++ more) ≡ digest_blocks n s bytes
  unfolding digest_blocks
  digest_blocks-append zero s bytes more h = refl
  digest_blocks-append (suc n) s bytes more h =
      rw (take-append 64 bytes more (omega arith), drop-append 64 bytes more (omega arith))
        (digest_blocks-append n (transform s (take 64 bytes)) (drop 64 bytes) more
          (omega (arith, length-drop 64 bytes)))

  digest_blocks-suc :
      (n : ℕ) (s : List ℕ) (bytes : Bytes)
      → digest_blocks (n + 1) s bytes
        ≡ transform (digest_blocks n s bytes) (take 64 (drop (64 * n) bytes))
  unfolding digest_blocks
  digest_blocks-suc zero s bytes = refl
  digest_blocks-suc (suc n) s bytes =
      let next : suc n + 1 ≡ suc (n + 1) = omega arith in
      let far : 64 + 64 * n ≡ 64 * suc n = omega arith in
      rw next (
        digest_blocks-suc n (transform s (take 64 bytes)) (drop 64 bytes)
        ∙ ap (λ t. transform (digest_blocks (suc n) s bytes) (take 64 t))
            (drop-drop (64 * n) 64 bytes ∙ ap (λ k. drop k bytes) far))

  -- What a context holds when the text has been fed to it: the state behind the full blocks, and
  -- the rest of the text at the beginning of the buffer.
  pub record IsFed (s : List ℕ) (text : Bytes) (ctx : Context) : Type 0 where
    pub counted : ctx.count ≡ length text
    pub buffered : length ctx.buffer ≡ 64
    pub digested : ctx.state ≡ digest_blocks (length text / 64) s text
    pub pending : take (length text % 64) ctx.buffer ≡ drop (64 * (length text / 64)) text

  update_byte-IsFed :
      (s : List ℕ) (text : Bytes) (ctx : Context) (byte : ℕ)
      → length text + 1 < 2 ^ 64
      → IsFed s text ctx
      → IsFed s (text ++ byte ∷ []) (update_byte transform ctx byte)
  unfolding update_byte
  update_byte-IsFed s text ctx byte small h =
      let n = length text in
      let buffer' = set ctx.buffer (n % 64) byte in
      let text' = text ++ byte ∷ [] in
      let grown : length text' ≡ n + 1 = length-append text (byte ∷ []) in
      let counts : (ctx.count + 1) % 2 ^ 64 ≡ n + 1 = omega (arith, h.counted) in
      let place : ctx.count % 64 ≡ n % 64 = omega (arith, h.counted) in
      let sized : length buffer' ≡ 64 = length-set ctx.buffer (n % 64) byte ∙ h.buffered in
      let front : take (n % 64 + 1) buffer' ≡ drop (64 * (n / 64)) text' =
        take-set ctx.buffer (n % 64) byte (omega (arith, h.buffered))
        ∙ ap (λ t. t ++ byte ∷ []) h.pending
        ∙ sym (drop-append (64 * (n / 64)) text (byte ∷ []) (omega arith)) in
      let before : digest_blocks (n / 64) s text' ≡ digest_blocks (n / 64) s text =
        digest_blocks-append (n / 64) s text (byte ∷ []) (omega arith) in
      rw (counts, place)
        (elim (Bool-cases ((n + 1) % 64 == 0)) [
          | inl full ↦
              let i : n % 64 + 1 ≡ 64 = ground arith in
              let blocks : n / 64 + 1 ≡ length text' / 64 = omega arith in
              let none_left : length text' % 64 ≡ 0 = omega arith in
              let block : buffer' ≡ take 64 (drop (64 * (n / 64)) text') =
                sym (take_whole 64 buffer' (omega arith))
                ∙ ap (take 64) (
                    sym (take_whole 64 buffer' (omega arith))
                    ∙ ap (λ k. take k buffer') (sym i)
                    ∙ front) in
              rw (full, if◌then◌else◌)
                record {
                  counted = sym grown;
                  buffered = sized;
                  digested =
                      ap (λ t. transform t buffer') (h.digested ∙ sym before)
                      ∙ ap (transform (digest_blocks (n / 64) s text')) block
                      ∙ sym (digest_blocks-suc (n / 64) s text')
                      ∙ ap (λ k. digest_blocks k s text') blocks;
                  pending =
                      ap (λ k. take k buffer') none_left
                      ∙ sym (drop_whole (64 * (length text' / 64)) text' (omega arith));
                }
          | inr short ↦
              let partial : (n + 1) % 64 ≢ 0 = λ e. absurd (ground arith) in
              let blocks : n / 64 ≡ length text' / 64 = omega arith in
              let i : length text' % 64 ≡ n % 64 + 1 = omega arith in
              rw (short, if◌then◌else◌)
                record {
                  counted = sym grown;
                  buffered = sized;
                  digested = h.digested ∙ sym before ∙ ap (λ k. digest_blocks k s text') blocks;
                  pending =
                      ap (λ k. take k buffer') i ∙ front ∙ ap (λ k. drop (64 * k) text') blocks;
                }
        ])

  -- Feeding a text leaves the state behind its full blocks of 64 bytes, whatever pieces it came
  -- in, and the bytes behind them in the buffer.
  pub update-IsFed :
      (s : List ℕ) (text bytes : Bytes) (ctx : Context)
      → length text + length bytes < 2 ^ 64
      → IsFed s text ctx
      → IsFed s (text ++ bytes) (update transform ctx bytes)
  unfolding update
  update-IsFed s text [] ctx small h = rw append-nil h
  update-IsFed s text (byte ∷ bytes) ctx small h =
      let grown = length-append text (byte ∷ []) in
      rw (append_assoc text (byte ∷ []) bytes) at (
        update-IsFed s (text ++ byte ∷ []) bytes (update_byte transform ctx byte) (omega arith)
          (update_byte-IsFed s text ctx byte (omega arith) h))
