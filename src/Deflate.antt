-- ===== src/Deflate.antt =====
-- include/deflate.h: CRC-32, the bit reader and the Huffman tables.
pub mod Reading
pub mod Counts
pub mod Unused
pub mod Gzip
pub mod Output
pub mod Trees
pub mod Inflate
use Prim.Native.Nat.{bit_and, bit_or, bit_xor}
use qoot.Base.{
  ℕ, zero, suc, ◌+◌, ◌-◌, ◌*◌, ◌/◌, ◌%◌, ◌^◌, Bool, true, false, List, [], ◌∷◌, Option, none, some,
  Bytes, length, get_or, set, replicate, ltb, leb, ◌==◌, if◌then◌else◌,
}

-- `(crc & 1) ? (crc >> 1) ^ 0xEDB88320u : crc >> 1`, n times.
crc32_shift : ℕ → ℕ → ℕ
crc32_shift zero crc = crc
crc32_shift (suc n) crc =
    crc32_shift n (if bit_and crc 1 == 0 then crc / 2 else bit_xor (crc / 2) 0xEDB88320)

unfoldable pub crc32_update : ℕ → ℕ → ℕ
unfolding crc32_shift
crc32_update crc byte = crc32_shift 8 (bit_xor crc byte)

-- The `for` of `crc32_buf`.
unfoldable pub crc32_loop : ℕ → Bytes → ℕ
crc32_loop crc [] = crc
crc32_loop crc (byte ∷ data_) = crc32_loop (crc32_update crc byte) data_

unfoldable pub crc32_buf : Bytes → ℕ
unfolding crc32_loop
crc32_buf data_ = bit_xor (crc32_loop 0xFFFFFFFF data_) 0xFFFFFFFF

-- `inflate_bits_t`: `src` holds the bytes from `pos` to `src_len`.
pub record Bits : Type 0 where
  pub src : Bytes
  pub buf : ℕ
  pub cnt : ℕ

unfoldable pub inf_bits_init : Bytes → Bits
inf_bits_init src = record { src = src; buf = 0; cnt = 0 }

-- The `while (b->cnt < n)`: whether enough bits were found.
unfoldable pub fill : ℕ → Bytes → ℕ → ℕ → Bool × Bits
fill n [] buf cnt = (leb n cnt, record { src = []; buf = buf; cnt = cnt })
fill n (x ∷ src) buf cnt =
    let more = fill n src (bit_or buf (x * 2 ^ cnt % 2 ^ 32)) (cnt + 8) in
    if ltb cnt n then more else (true, record { src = x ∷ src; buf = buf; cnt = cnt })

unfoldable pub inf_bits_read : Bits → ℕ → ℕ × Bits
unfolding fill
inf_bits_read b n =
    let (enough, c) = fill n b.src b.buf b.cnt in
    if enough
    then (bit_and c.buf (2 ^ n - 1), record { src = c.src; buf = c.buf / 2 ^ n; cnt = c.cnt - n })
    else (0, c)

-- `inflate_huff_t`: 16 counts and 288 symbols, each an `unsigned short`.
pub record Huff : Type 0 where
  pub count : List ℕ
  pub symbol : List ℕ

-- `for (…) h->count[lengths[i]]++;`
unfoldable pub count_lengths : List ℕ → Bytes → List ℕ
count_lengths count [] = count
count_lengths count (l ∷ lengths) =
    count_lengths (set count l ((get_or count l 0 + 1) % 65536)) lengths

-- The offsets from the one of value `offset` on: `offsets[i] = offsets[i - 1] + h->count[i - 1]`.
unfoldable pub offsets_from : ℕ → List ℕ → List ℕ
offsets_from offset [] = []
offsets_from offset (c ∷ count) = offset ∷ offsets_from ((offset + c) % 65536) count

-- The last loop: symbol i goes to the next place of its length.
unfoldable pub place_symbols : ℕ → Bytes → List ℕ → List ℕ → List ℕ
place_symbols i [] offsets symbol = symbol
place_symbols i (l ∷ lengths) offsets symbol =
    let o = get_or offsets l 0 in
    let unused = place_symbols (i + 1) lengths offsets symbol in
    let used =
      place_symbols (i + 1) lengths (set offsets l ((o + 1) % 65536)) (set symbol o (i % 65536)) in
    if l == 0 then unused else used

unfoldable pub inf_huff_build : Huff → Bytes → Huff
inf_huff_build h lengths =
    let count = count_lengths (replicate 16 0) lengths in
    if get_or count 0 0 == length lengths % 65536
    then record { count = count; symbol = h.symbol }
    else record { count = count; symbol = place_symbols 0 lengths (offsets_from 0 count) h.symbol }

-- The loop of `inf_huff_decode`, on the lengths left; -1 is `none`.
unfoldable pub decode_loop : ℕ → Huff → ℕ → Bits → ℕ → ℕ → ℕ → Option ℕ × Bits
decode_loop zero h len b code first index = (none, b)
decode_loop (suc n) h len b code first index =
    let r = inf_bits_read b 1 in
    let code' = bit_or code r.0 in
    let cnt = get_or h.count len 0 in
    let longer = decode_loop n h (len + 1) r.1 (code' * 2) ((first + cnt) * 2) (index + cnt) in
    if ltb code' (first + cnt)
    then (some (get_or h.symbol (index + (code' - first)) 0), r.1)
    else longer

unfoldable pub inf_huff_decode : Bits → Huff → Option ℕ × Bits
inf_huff_decode b h = decode_loop 15 h 1 b 0 0 0
