-- ===== src/Str/Parse.antt =====
-- include/string.h: text to numbers. An `unsigned` accumulator wraps at its width.
use Prim.Native.Nat.{bit_or}
use qoot.Base.{
  ℕ, ◌+◌, ◌-◌, ◌*◌, ◌%◌, ◌^◌, [], ◌∷◌, Bool, true, false, Bytes, leb, ◌&&◌, ◌||◌, ◌==◌,
  if◌then◌else◌,
}
use qoot.Base.Int.{ℤ, signed64}

-- `while (*s >= '0' && *s <= '9') { val = val * 10 + (*s - '0'); s++; }`, modulo the width.
unfoldable pub decimal_loop : ℕ → Bytes → ℕ → ℕ
decimal_loop modulus [] val = val
decimal_loop modulus (c ∷ s) val =
    if leb b'0' c && leb c b'9'
    then decimal_loop modulus s ((val * 10 + (c - b'0')) % modulus)
    else val

unfoldable pub str_to_uint : Bytes → ℕ
unfolding decimal_loop
str_to_uint s = decimal_loop (2 ^ 32) s 0

-- `neg ? -val : val` on the 64-bit pattern of the `long`.
unfoldable pub str_to_long : Bytes → ℤ
unfolding decimal_loop
str_to_long [] = signed64 0
str_to_long (c ∷ s) =
    if c == b'-'
    then signed64 ((2 ^ 64 - decimal_loop (2 ^ 64) s 0) % 2 ^ 64)
    else signed64 (decimal_loop (2 ^ 64) (c ∷ s) 0)

-- `val = (val << 3) | (*s - '0')` on 32 bits.
unfoldable pub oct_loop : Bytes → ℕ → ℕ
oct_loop [] val = val
oct_loop (c ∷ s) val =
    if leb b'0' c && leb c b'7' then oct_loop s (bit_or (val * 2 ^ 3 % 2 ^ 32) (c - b'0')) else val

unfoldable pub oct_to_uint : Bytes → ℕ
unfolding oct_loop
oct_to_uint s = oct_loop s 0

-- The digit that a byte stands for; anything else ends the loop.
unfoldable pub hex_value : ℕ → Bool × ℕ
hex_value c =
    if leb b'0' c && leb c b'9'
    then (true, c - b'0')
    else if leb b'a' c && leb c b'f'
    then (true, c - b'a' + 10)
    else if leb b'A' c && leb c b'F'
    then (true, c - b'A' + 10)
    else (false, 0)

unfoldable pub hex_loop : Bytes → ℕ → ℕ
hex_loop [] val = val
hex_loop (c ∷ s) val =
    let (ok, d) = hex_value c in if ok then hex_loop s (bit_or (val * 2 ^ 4 % 2 ^ 64) d) else val

-- `if (s[0] == '0' && (s[1] == 'x' || s[1] == 'X')) s += 2;`
unfoldable pub skip_0x : Bytes → Bytes
skip_0x (z ∷ x ∷ s) = if z == b'0' && (x == b'x' || x == b'X') then s else z ∷ x ∷ s
skip_0x s = s

unfoldable pub hex_to_ulong : Bytes → ℕ
unfolding hex_loop hex_value skip_0x
hex_to_ulong s = hex_loop (skip_0x s) 0
