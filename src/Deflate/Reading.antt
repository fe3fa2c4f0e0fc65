-- ===== src/Deflate/Reading.antt =====
-- include/deflate.h: `inf_bits_read` takes the next bits of the stream, the lowest bit of a byte
-- first.
use Prim.Native.Nat.{bit_or}
use native.Mathlib.Nat.{
  pow-le-pow_right, mod-eq_of_lt, add-mul-mod_self_left, mul_assoc, mul_comm, mul-add,
  div-lt_iff_lt-mul, add-mul-div_left, mul-le-mul, mul-le-mul_right,
}
use qoot.Base.{
  ℕ, ◌+◌, ◌-◌, ◌*◌, ◌/◌, ◌%◌, ◌^◌, ◌<◌, ◌≤◌, ◌≡◌, refl, ap, sym, ◌∙◌, Bool, true, inl, inr, [], ◌∷◌,
  Bytes, length, All, arith, Bool-cases, ltb, if◌then◌else◌,
}
use qoot.Base.Bits.{bit_or_comm, bit_or_shift, bit_and_mask, pow_add, pow_pos}
use qoot.Deflate.{Bits, fill, inf_bits_read}

-- The number that the bytes make, the first one lowest: its binary digits are the bits in the order
-- in which deflate reads them.
abbrev pub little_endian : Bytes → ℕ
little_endian [] = 0
little_endian (x ∷ src) = x + 256 * little_endian src

-- The bits that are not read yet, as a number, and how many they are.
abbrev pub stream : Bits → ℕ
stream b = b.buf + 2 ^ b.cnt * little_endian b.src

abbrev pub bits_left : Bits → ℕ
bits_left b = b.cnt + 8 * length b.src

-- The buffer holds `cnt` bits, and the source bytes.
pub record IsReader (b : Bits) : Type 0 where
  pub buffered : b.buf < 2 ^ b.cnt
  pub bytes : All (λ x. x < 256) b.src

pow_bound : {cnt n : ℕ} → n ≤ 24 → cnt < n → 2 ^ cnt ≤ 2 ^ 24
pow_bound {cnt = cnt} {n = n} h lt = pow-le-pow_right (omega arith) {i = cnt} {j = 24} (omega arith)

-- A byte that is moved above fewer than 24 bits stays in the `unsigned int`.
room : (x cnt n : ℕ) → n ≤ 24 → cnt < n → x < 256 → x * 2 ^ cnt % 2 ^ 32 ≡ x * 2 ^ cnt
room x cnt n h lt small =
    let low : x ≤ 255 = omega arith in
    let top =
      mul-le-mul {n₁ = x} {m₁ = 2 ^ cnt} {n₂ = 255} {m₂ = 2 ^ 24} low
        (pow_bound {cnt = cnt} {n = n} h lt) in
    mod-eq_of_lt {n = x * 2 ^ cnt} {m = 2 ^ 32} (omega arith)

refill : (x buf cnt : ℕ) → buf < 2 ^ cnt → bit_or buf (x * 2 ^ cnt) ≡ x * 2 ^ cnt + buf
refill x buf cnt h = bit_or_comm buf (x * 2 ^ cnt) ∙ bit_or_shift cnt x buf h

eight : (cnt : ℕ) → 2 ^ (cnt + 8) ≡ 2 ^ cnt * 256
eight cnt = pow_add cnt 8

-- What the loop keeps: the stream, its length and the shape; and the bits that it was asked for.
pub record Filled (n : ℕ) (b : Bits) (r : Bool × Bits) : Type 0 where
  pub enough : r.0 ≡ true
  pub held : n ≤ r.1.cnt
  pub same_stream : stream r.1 ≡ stream b
  pub same_left : bits_left r.1 ≡ bits_left b
  pub reader : IsReader r.1

-- One more byte above the buffered bits is the next byte of the stream.
pushed : (p x buf l : ℕ) → x * p + buf + p * 256 * l ≡ buf + p * (x + 256 * l)
pushed p x buf l = omega (arith, mul-add p x (256 * l), mul_assoc p 256 l, mul_comm x p)

pushed_bound : (p x buf : ℕ) → x < 256 → buf < p → x * p + buf < p * 256
pushed_bound p x buf hx hb =
    let low : x ≤ 255 = omega arith in
    let most = mul-le-mul_right {m = x} {n = 255} p low in omega (arith, most)

fill-Filled :
    (n : ℕ) (src : Bytes) (buf cnt : ℕ)
    → let b : Bits = record { src = src; buf = buf; cnt = cnt } in
      n ≤ 24 → IsReader b → n ≤ bits_left b → Filled n b (fill n src buf cnt)
unfolding fill
fill-Filled n [] buf cnt h w e = record {
  enough = ground arith;
  held = omega arith;
  same_stream = refl;
  same_left = refl;
  reader = w;
}
fill-Filled n (x ∷ src) buf cnt h w e = elim (Bool-cases (ltb cnt n)) [
  | inr full ↦
      rw (full, if◌then◌else◌)
        record {
          enough = refl;
          held = ground arith;
          same_stream = refl;
          same_left = refl;
          reader = w;
        }
  | inl lack ↦
      let p = 2 ^ cnt in
      let lt : cnt < n = ground arith in
      let w' : IsReader record { src = src; buf = x * p + buf; cnt = cnt + 8 } = record {
        buffered = rw (eight cnt) (pushed_bound p x buf w.bytes.0 w.buffered);
        bytes = w.bytes.1;
      } in
      let r = fill-Filled n src (x * p + buf) (cnt + 8) h w' (omega arith) in
      let same : x * p + buf + 2 ^ (cnt + 8) * little_endian src
          ≡ buf + p * (x + 256 * little_endian src) =
        rw (eight cnt) (pushed p x buf (little_endian src)) in
      rw (lack, if◌then◌else◌, room x cnt n h lt w.bytes.0, refill x buf cnt w.buffered)
        record {
          enough = r.enough;
          held = r.held;
          same_stream = r.same_stream ∙ same;
          same_left = omega (arith, r.same_left);
          reader = r.reader;
        }
]

-- Dividing the buffer drops the bits that were read.
lowest_bits :
    (n : ℕ) (b : Bits)
    → n ≤ b.cnt
    → (b.buf % 2 ^ n ≡ stream b % 2 ^ n)
      × (b.buf / 2 ^ n + 2 ^ (b.cnt - n) * little_endian b.src ≡ stream b / 2 ^ n)
lowest_bits n b h =
    let l = little_endian b.src in
    let split : n + (b.cnt - n) ≡ b.cnt = omega arith in
    let parts : stream b ≡ b.buf + 2 ^ n * (2 ^ (b.cnt - n) * l) =
      ap (λ p. b.buf + p * l) (sym (ap (◌^◌ 2) split) ∙ pow_add n (b.cnt - n))
      ∙ ap (◌+◌ b.buf) (mul_assoc (2 ^ n) (2 ^ (b.cnt - n)) l) in
    (
      sym (ap (λ s. s % 2 ^ n) parts ∙ add-mul-mod_self_left b.buf (2 ^ n) _),
      sym (ap (λ s. s / 2 ^ n) parts ∙ add-mul-div_left b.buf _ {y = 2 ^ n} (pow_pos n)),
    )

buffer_bound : (n : ℕ) {cnt buf : ℕ} → n ≤ cnt → buf < 2 ^ cnt → buf / 2 ^ n < 2 ^ (cnt - n)
buffer_bound n {cnt} {buf} h lt =
    let split : cnt - n + n ≡ cnt = omega arith in
    let parts : 2 ^ cnt ≡ 2 ^ (cnt - n) * 2 ^ n = sym (ap (◌^◌ 2) split) ∙ pow_add (cnt - n) n in
    (div-lt_iff_lt-mul {k = 2 ^ n} {x = buf} {y = 2 ^ (cnt - n)} (pow_pos n)).1 (rw parts at lt)

-- While n bits are left, n at most 24, `inf_bits_read` returns the next n bits of the stream as a
-- number and moves on by them, and the reader stays well formed.
pub inf_bits_read_next :
    (b : Bits) (n : ℕ)
    → n ≤ 24
    → IsReader b
    → n ≤ bits_left b
    → ((inf_bits_read b n).0 ≡ stream b % 2 ^ n)
      × (stream (inf_bits_read b n).1 ≡ stream b / 2 ^ n)
      × (bits_left (inf_bits_read b n).1 + n ≡ bits_left b)
      × IsReader (inf_bits_read b n).1
unfolding inf_bits_read
inf_bits_read_next b n h w e =
    let r = fill-Filled n b.src b.buf b.cnt h w e in
    let c = (fill n b.src b.buf b.cnt).1 in
    let low = lowest_bits n c r.held in
    rw (r.enough, if◌then◌else◌)
      (
        bit_and_mask n c.buf ∙ low.0 ∙ ap (λ s. s % 2 ^ n) r.same_stream,
        low.1 ∙ ap (λ s. s / 2 ^ n) r.same_stream,
        omega (arith, r.same_left, r.held),
        record { buffered = buffer_bound n r.held r.reader.buffered; bytes = r.reader.bytes },
      )
