-- ===== src/Str/Digits.antt =====
-- include/string.h: numbers to text. The digits are stored in `tmp` from the last to the first,
-- and then copied to `buf` in reverse. A result is the text in `buf` and the returned length.
use qoot.Base.{
  ℕ, zero, suc, ◌+◌, ◌/◌, ◌%◌, ◌^◌, [], ◌∷◌, Bool, Bytes, length, reverse, get_or, codes, ◌==◌,
  if◌then◌else◌,
}
use qoot.Base.Int.{ℤ, pos, negsuc}

-- `while (val > 0) { tmp[i++] = digit(val % base); val /= base; }` on fuel.
unfoldable pub store_digits : (ℕ → ℕ) → ℕ → ℕ → ℕ → Bytes
store_digits digit base zero val = []
store_digits digit base (suc f) val =
    let more = digit (val % base) ∷ store_digits digit base f (val / base) in
    if val == 0 then [] else more

-- The shared shape of the four conversions: zero is one digit, and `tmp` is reversed.
unfoldable pub to_text : (ℕ → ℕ) → ℕ → ℕ → Bytes × ℕ
unfolding store_digits
to_text digit base val =
    if val == 0
    then (b'0' ∷ [], 1)
    else let tmp = store_digits digit base val val in (reverse tmp, length tmp)

abbrev pub decimal_digit : ℕ → ℕ
decimal_digit d = b'0' + d

unfoldable pub uint_to_str : ℕ → Bytes × ℕ
unfolding to_text
uint_to_str val = to_text decimal_digit 10 val

unfoldable pub ulong_to_str : ℕ → Bytes × ℕ
unfolding to_text
ulong_to_str val = to_text decimal_digit 10 val

-- `(unsigned int)(-(long)val)` of a negative `int`
unfoldable pub int_to_str : ℤ → Bytes × ℕ
unfolding uint_to_str
int_to_str (pos n) = uint_to_str n
int_to_str (negsuc n) = let (text, len) = uint_to_str (suc n % 2 ^ 32) in (b'-' ∷ text, 1 + len)

-- `(unsigned long)(-val)` of a negative `long`
unfoldable pub long_to_str : ℤ → Bytes × ℕ
unfolding ulong_to_str
long_to_str (pos n) = ulong_to_str n
long_to_str (negsuc n) = let (text, len) = ulong_to_str (suc n % 2 ^ 64) in (b'-' ∷ text, 1 + len)

-- `val & 7` and `val >>= 3`
unfoldable pub uint_to_oct : ℕ → Bytes × ℕ
unfolding to_text
uint_to_oct val = to_text decimal_digit 8 val

-- The table that `upper` selects.
abbrev pub hex_digits : Bool → Bytes
hex_digits upper = if upper then codes "0123456789ABCDEF" else codes "0123456789abcdef"

-- `val & 0xf` and `val >>= 4`
unfoldable pub ulong_to_hex : ℕ → Bool → Bytes × ℕ
unfolding to_text
ulong_to_hex val upper = to_text (λ d. get_or (hex_digits upper) d 0) 16 val
