-- ===== src/Digest.antt =====
-- include/md5.h and include/sha256.h: 32-bit words, and the context that both digests feed byte by
-- byte.
pub mod Md5
pub mod Sha256
pub mod Blocks
use Prim.Native.Nat.{bit_and, bit_or, bit_xor}
use qoot.Base.{
  ℕ, zero, suc, ◌+◌, ◌-◌, ◌*◌, ◌/◌, ◌%◌, ◌^◌, List, [], ◌∷◌, Bytes, get_or, set, replicate, ltb,
  leb, ◌==◌, if◌then◌else◌,
}

-- `~x` on 32 bits.
abbrev pub complement : ℕ → ℕ
complement x = bit_xor x 0xFFFFFFFF

-- `(x << n) | (x >> (32 - n))`
abbrev pub rotate_left : ℕ → ℕ → ℕ
rotate_left x n = bit_or (x * 2 ^ n % 2 ^ 32) (x / 2 ^ (32 - n))

abbrev pub add32 : ℕ → ℕ → ℕ
add32 a b = (a + b) % 2 ^ 32

-- `ctx->state[i] += …` for each i.
abbrev pub add_each : List ℕ → List ℕ → List ℕ
add_each [] ys = []
add_each (x ∷ xs) [] = x ∷ xs
add_each (x ∷ xs) (y ∷ ys) = add32 x y ∷ add_each xs ys

-- `md5_ctx_t` and `sha256_ctx_t`.
pub record Context : Type 0 where
  pub state : List ℕ
  pub count : ℕ
  pub buffer : Bytes

-- `while (idx < end) ctx->buffer[idx++] = 0;`, n bytes.
unfoldable pub zero_bytes : ℕ → ℕ → Bytes → Bytes
zero_bytes zero idx buffer = buffer
zero_bytes (suc n) idx buffer = zero_bytes n (idx + 1) (set buffer idx 0)

-- The bytes of a number, n of them, the lowest first.
unfoldable pub little_bytes : ℕ → ℕ → Bytes
little_bytes zero x = []
little_bytes (suc n) x = x % 256 ∷ little_bytes n (x / 256)

-- `ctx->buffer[at + i] = …` for each byte.
unfoldable pub store_bytes : ℕ → Bytes → Bytes → Bytes
store_bytes at [] buffer = buffer
store_bytes at (b ∷ bytes) buffer = store_bytes (at + 1) bytes (set buffer at b)

-- `transform` is what the digest does with a full buffer.
module _ (transform : List ℕ → Bytes → List ℕ) where
  unfoldable pub update_byte : Context → ℕ → Context
  update_byte ctx byte =
      let buffer = set ctx.buffer (ctx.count % 64) byte in
      let count = (ctx.count + 1) % 2 ^ 64 in
      record {
        state = if count % 64 == 0 then transform ctx.state buffer else ctx.state;
        count = count;
        buffer = buffer;
      }

  unfoldable pub update : Context → Bytes → Context
  unfolding update_byte
  update ctx [] = ctx
  update ctx (byte ∷ bytes) = update (update_byte ctx byte) bytes

  -- The padding and the last transforms; `length_bytes` puts the bit count in its byte order.
  unfoldable pub finish : (ℕ → Bytes) → Context → List ℕ
  unfolding zero_bytes store_bytes
  finish length_bytes ctx =
      let idx = ctx.count % 64 in
      let bits = ctx.count * 8 % 2 ^ 64 in
      let marked = set ctx.buffer idx 0x80 in
      let state =
        if ltb 56 (idx + 1)
        then transform ctx.state (zero_bytes (64 - (idx + 1)) (idx + 1) marked)
        else ctx.state in
      let cleared =
        if ltb 56 (idx + 1)
        then zero_bytes 56 0 (zero_bytes (64 - (idx + 1)) (idx + 1) marked)
        else zero_bytes (56 - (idx + 1)) (idx + 1) marked in
      transform state (store_bytes 56 (length_bytes bits) cleared)
