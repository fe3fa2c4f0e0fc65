-- ===== src/Digest/Md5.antt =====
-- include/md5.h
use Prim.Native.Nat.{bit_and, bit_or, bit_xor}
use qoot.Base.{
  ℕ, zero, suc, ◌+◌, ◌*◌, ◌%◌, ◌^◌, List, [], ◌∷◌, ◌++◌, Bytes, get_or, replicate, ltb,
  if◌then◌else◌,
}
use qoot.Digest.{complement, rotate_left, add32, add_each, Context, update, finish, little_bytes}

abbrev md5_k : List ℕ
md5_k =
    0xd76aa478 ∷ 0xe8c7b756 ∷ 0x242070db ∷ 0xc1bdceee ∷ 0xf57c0faf ∷ 0x4787c62a ∷ 0xa8304613
    ∷ 0xfd469501 ∷ 0x698098d8 ∷ 0x8b44f7af ∷ 0xffff5bb1 ∷ 0x895cd7be ∷ 0x6b901122 ∷ 0xfd987193
    ∷ 0xa679438e ∷ 0x49b40821 ∷ 0xf61e2562 ∷ 0xc040b340 ∷ 0x265e5a51 ∷ 0xe9b6c7aa ∷ 0xd62f105d
    ∷ 0x02441453 ∷ 0xd8a1e681 ∷ 0xe7d3fbc8 ∷ 0x21e1cde6 ∷ 0xc33707d6 ∷ 0xf4d50d87 ∷ 0x455a14ed
    ∷ 0xa9e3e905 ∷ 0xfcefa3f8 ∷ 0x676f02d9 ∷ 0x8d2a4c8a ∷ 0xfffa3942 ∷ 0x8771f681 ∷ 0x6d9d6122
    ∷ 0xfde5380c ∷ 0xa4beea44 ∷ 0x4bdecfa9 ∷ 0xf6bb4b60 ∷ 0xbebfbc70 ∷ 0x289b7ec6 ∷ 0xeaa127fa
    ∷ 0xd4ef3085 ∷ 0x04881d05 ∷ 0xd9d4d039 ∷ 0xe6db99e5 ∷ 0x1fa27cf8 ∷ 0xc4ac5665 ∷ 0xf4292244
    ∷ 0x432aff97 ∷ 0xab9423a7 ∷ 0xfc93a039 ∷ 0x655b59c3 ∷ 0x8f0ccc92 ∷ 0xffeff47d ∷ 0x85845dd1
    ∷ 0x6fa87e4f ∷ 0xfe2ce6e0 ∷ 0xa3014314 ∷ 0x4e0811a1 ∷ 0xf7537e82 ∷ 0xbd3af235 ∷ 0x2ad7d2bb
    ∷ 0xeb86d391 ∷ []

abbrev md5_r : List ℕ
md5_r =
    7 ∷ 12 ∷ 17 ∷ 22 ∷ 7 ∷ 12 ∷ 17 ∷ 22 ∷ 7 ∷ 12 ∷ 17 ∷ 22 ∷ 7 ∷ 12 ∷ 17 ∷ 22 ∷ 5 ∷ 9 ∷ 14 ∷ 20 ∷ 5
    ∷ 9 ∷ 14 ∷ 20 ∷ 5 ∷ 9 ∷ 14 ∷ 20 ∷ 5 ∷ 9 ∷ 14 ∷ 20 ∷ 4 ∷ 11 ∷ 16 ∷ 23 ∷ 4 ∷ 11 ∷ 16 ∷ 23 ∷ 4 ∷ 11
    ∷ 16 ∷ 23 ∷ 4 ∷ 11 ∷ 16 ∷ 23 ∷ 6 ∷ 10 ∷ 15 ∷ 21 ∷ 6 ∷ 10 ∷ 15 ∷ 21 ∷ 6 ∷ 10 ∷ 15 ∷ 21 ∷ 6 ∷ 10
    ∷ 15 ∷ 21 ∷ []

-- The f of round i.
abbrev md5_mix : ℕ → ℕ → ℕ → ℕ → ℕ
md5_mix i b c d =
    if ltb i 16
    then bit_or (bit_and b c) (bit_and (complement b) d)
    else if ltb i 32
    then bit_or (bit_and b d) (bit_and c (complement d))
    else if ltb i 48
    then bit_xor (bit_xor b c) d
    else bit_xor c (bit_or b (complement d))

-- The g of round i.
abbrev md5_word : ℕ → ℕ
md5_word i =
    if ltb i 16
    then i
    else if ltb i 32
    then (5 * i + 1) % 16
    else if ltb i 48
    then (3 * i + 5) % 16
    else 7 * i % 16

-- `m[i]`
abbrev pub little_word : Bytes → ℕ → ℕ
little_word buffer i =
    bit_or
      (bit_or (bit_or (get_or buffer (i * 4) 0) (get_or buffer (i * 4 + 1) 0 * 2 ^ 8))
        (get_or buffer (i * 4 + 2) 0 * 2 ^ 16))
      (get_or buffer (i * 4 + 3) 0 * 2 ^ 24)

-- The 64 rounds, from round i on.
unfoldable pub md5_rounds : ℕ → ℕ → Bytes → ℕ → ℕ → ℕ → ℕ → List ℕ
md5_rounds zero i buffer a b c d = a ∷ b ∷ c ∷ d ∷ []
md5_rounds (suc n) i buffer a b c d =
    let f = md5_mix i b c d in
    let sum = add32 (add32 (add32 a f) (get_or md5_k i 0)) (little_word buffer (md5_word i)) in
    md5_rounds n (i + 1) buffer d (add32 b (rotate_left sum (get_or md5_r i 0))) b c

unfoldable pub md5_transform : List ℕ → Bytes → List ℕ
unfolding md5_rounds
md5_transform state buffer =
    let a = get_or state 0 0 in
    let b = get_or state 1 0 in
    let c = get_or state 2 0 in
    let d = get_or state 3 0 in add_each state (md5_rounds 64 0 buffer a b c d)

abbrev pub md5_init : Context
md5_init = record {
  state = 0x67452301 ∷ 0xefcdab89 ∷ 0x98badcfe ∷ 0x10325476 ∷ [];
  count = 0;
  buffer = replicate 64 0;
}

unfoldable pub md5_update : Context → Bytes → Context
unfolding update md5_transform
md5_update = update md5_transform

abbrev digest_little : List ℕ → Bytes
digest_little [] = []
digest_little (x ∷ state) = little_bytes 4 x ++ digest_little state

unfoldable pub md5_final : Context → Bytes
unfolding finish md5_transform little_bytes
md5_final ctx = digest_little (finish md5_transform (little_bytes 8) ctx)
