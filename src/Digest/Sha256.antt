-- ===== src/Digest/Sha256.antt =====
-- include/sha256.h
use Prim.Native.Nat.{bit_and, bit_or, bit_xor}
use qoot.Base.{
  ℕ, zero, suc, ◌+◌, ◌-◌, ◌*◌, ◌/◌, ◌%◌, ◌^◌, List, [], ◌∷◌, ◌++◌, reverse, Bytes, get_or,
  replicate,
}
use qoot.Digest.{complement, add32, add_each, Context, update, finish, little_bytes}

abbrev sha256_k : List ℕ
sha256_k =
    0x428a2f98 ∷ 0x71374491 ∷ 0xb5c0fbcf ∷ 0xe9b5dba5 ∷ 0x3956c25b ∷ 0x59f111f1 ∷ 0x923f82a4
    ∷ 0xab1c5ed5 ∷ 0xd807aa98 ∷ 0x12835b01 ∷ 0x243185be ∷ 0x550c7dc3 ∷ 0x72be5d74 ∷ 0x80deb1fe
    ∷ 0x9bdc06a7 ∷ 0xc19bf174 ∷ 0xe49b69c1 ∷ 0xefbe4786 ∷ 0x0fc19dc6 ∷ 0x240ca1cc ∷ 0x2de92c6f
    ∷ 0x4a7484aa ∷ 0x5cb0a9dc ∷ 0x76f988da ∷ 0x983e5152 ∷ 0xa831c66d ∷ 0xb00327c8 ∷ 0xbf597fc7
    ∷ 0xc6e00bf3 ∷ 0xd5a79147 ∷ 0x06ca6351 ∷ 0x14292967 ∷ 0x27b70a85 ∷ 0x2e1b2138 ∷ 0x4d2c6dfc
    ∷ 0x53380d13 ∷ 0x650a7354 ∷ 0x766a0abb ∷ 0x81c2c92e ∷ 0x92722c85 ∷ 0xa2bfe8a1 ∷ 0xa81a664b
    ∷ 0xc24b8b70 ∷ 0xc76c51a3 ∷ 0xd192e819 ∷ 0xd6990624 ∷ 0xf40e3585 ∷ 0x106aa070 ∷ 0x19a4c116
    ∷ 0x1e376c08 ∷ 0x2748774c ∷ 0x34b0bcb5 ∷ 0x391c0cb3 ∷ 0x4ed8aa4a ∷ 0x5b9cca4f ∷ 0x682e6ff3
    ∷ 0x748f82ee ∷ 0x78a5636f ∷ 0x84c87814 ∷ 0x8cc70208 ∷ 0x90befffa ∷ 0xa4506ceb ∷ 0xbef9a3f7
    ∷ 0xc67178f2 ∷ []

-- `(x >> n) | (x << (32 - n))`
abbrev rotate_right : ℕ → ℕ → ℕ
rotate_right x n = bit_or (x / 2 ^ n) (x * 2 ^ (32 - n) % 2 ^ 32)

abbrev ch : ℕ → ℕ → ℕ → ℕ
ch x y z = bit_xor (bit_and x y) (bit_and (complement x) z)

abbrev maj : ℕ → ℕ → ℕ → ℕ
maj x y z = bit_xor (bit_xor (bit_and x y) (bit_and x z)) (bit_and y z)

abbrev big_sigma0 : ℕ → ℕ
big_sigma0 x = bit_xor (bit_xor (rotate_right x 2) (rotate_right x 13)) (rotate_right x 22)

abbrev big_sigma1 : ℕ → ℕ
big_sigma1 x = bit_xor (bit_xor (rotate_right x 6) (rotate_right x 11)) (rotate_right x 25)

abbrev small_sigma0 : ℕ → ℕ
small_sigma0 x = bit_xor (bit_xor (rotate_right x 7) (rotate_right x 18)) (x / 2 ^ 3)

abbrev small_sigma1 : ℕ → ℕ
small_sigma1 x = bit_xor (bit_xor (rotate_right x 17) (rotate_right x 19)) (x / 2 ^ 10)

abbrev big_word : Bytes → ℕ → ℕ
big_word buffer i =
    bit_or
      (bit_or (bit_or (get_or buffer (i * 4) 0 * 2 ^ 24) (get_or buffer (i * 4 + 1) 0 * 2 ^ 16))
        (get_or buffer (i * 4 + 2) 0 * 2 ^ 8))
      (get_or buffer (i * 4 + 3) 0)

-- The first n words of the buffer.
abbrev first_words : ℕ → Bytes → List ℕ
first_words zero buffer = []
first_words (suc n) buffer = first_words n buffer ++ big_word buffer n ∷ []

-- n more words, from word i on.
unfoldable pub more_words : ℕ → ℕ → List ℕ → List ℕ
more_words zero i w = w
more_words (suc n) i w =
    let sum =
      add32
        (add32 (add32 (small_sigma1 (get_or w (i - 2) 0)) (get_or w (i - 7) 0))
          (small_sigma0 (get_or w (i - 15) 0)))
        (get_or w (i - 16) 0) in
    more_words n (i + 1) (w ++ sum ∷ [])

-- The 64 rounds, from round i on.
unfoldable pub sha256_rounds : ℕ → ℕ → List ℕ → ℕ → ℕ → ℕ → ℕ → ℕ → ℕ → ℕ → ℕ → List ℕ
sha256_rounds zero i w a b c d e f g h = a ∷ b ∷ c ∷ d ∷ e ∷ f ∷ g ∷ h ∷ []
sha256_rounds (suc n) i w a b c d e f g h =
    let t1 =
      add32 (add32 (add32 (add32 h (big_sigma1 e)) (ch e f g)) (get_or sha256_k i 0))
        (get_or w i 0) in
    let t2 = add32 (big_sigma0 a) (maj a b c) in
    sha256_rounds n (i + 1) w (add32 t1 t2) a b c (add32 d t1) e f g

unfoldable pub sha256_transform : List ℕ → Bytes → List ℕ
unfolding sha256_rounds more_words
sha256_transform state buffer =
    let w = more_words 48 16 (first_words 16 buffer) in
    let a = get_or state 0 0 in
    let b = get_or state 1 0 in
    let c = get_or state 2 0 in
    let d = get_or state 3 0 in
    let e = get_or state 4 0 in
    let f = get_or state 5 0 in
    let g = get_or state 6 0 in
    let h = get_or state 7 0 in add_each state (sha256_rounds 64 0 w a b c d e f g h)

abbrev pub sha256_init : Context
sha256_init = record {
  state =
      0x6a09e667 ∷ 0xbb67ae85 ∷ 0x3c6ef372 ∷ 0xa54ff53a ∷ 0x510e527f ∷ 0x9b05688c ∷ 0x1f83d9ab
      ∷ 0x5be0cd19 ∷ [];
  count = 0;
  buffer = replicate 64 0;
}

unfoldable pub sha256_update : Context → Bytes → Context
unfolding update sha256_transform
sha256_update = update sha256_transform

abbrev digest_big : List ℕ → Bytes
digest_big [] = []
digest_big (x ∷ state) = reverse (little_bytes 4 x) ++ digest_big state

unfoldable pub sha256_final : Context → Bytes
unfolding finish sha256_transform little_bytes
sha256_final ctx = digest_big (finish sha256_transform (λ n. reverse (little_bytes 8 n)) ctx)
