-- ===== src/Str/RoundTrip.antt =====
-- include/string.h: a number that is printed and parsed again is the same number, and its text
-- fits in the caller's buffer.

use native.Mathlib.Nat.{mod-eq_of_lt}
use qoot.Base.{
  ℕ, suc, ◌+◌, ◌-◌, ◌*◌, ◌%◌, ◌^◌, ◌<◌, ◌≤◌, ◌≡◌, refl, ap, ◌∙◌, Bool, true, false, [], ◌∷◌, ◌++◌,
  append-nil, Bytes, length, All, ◌≢◌, get_or, arith, holds_below, holds_below_sound, ◌&&◌, ◌==◌,
}
use qoot.Base.Bits.{bit_or_shift}
use qoot.Base.Int.{ℤ, pos, negsuc, pos_part, neg_part, signed64}
use Prim.Native.Nat.{bit_or}
use qoot.Str.{peek, is_digit}
use qoot.Str.Places.{Reads, loop-to_text, length-to_text, All-to_text}
use qoot.Str.Digits.{
  to_text, decimal_digit, hex_digits, uint_to_str, ulong_to_str, long_to_str, uint_to_oct,
  ulong_to_hex,
}
use qoot.Str.Parse.{
  decimal_loop, str_to_uint, str_to_long, oct_loop, oct_to_uint, hex_value, hex_loop, skip_0x,
  hex_to_ulong,
}

Reads-decimal : (modulus : ℕ) → Reads (decimal_loop modulus) decimal_digit 10 modulus
unfolding decimal_loop
Reads-decimal modulus rest q d small fits =
    let place : (q * 10 + (b'0' + d - b'0')) % modulus ≡ q * 10 + d =
      let digit : b'0' + d - b'0' ≡ d = omega arith in rw digit (mod-eq_of_lt fits) in
    ground (arith, place)

Reads-oct : Reads oct_loop decimal_digit 8 (2 ^ 32)
unfolding oct_loop
Reads-oct rest q d small fits =
    let digit : b'0' + d - b'0' ≡ d = omega arith in
    let whole : q * 2 ^ 3 % 2 ^ 32 ≡ q * 2 ^ 3 = omega arith in
    let place : bit_or (q * 2 ^ 3 % 2 ^ 32) (b'0' + d - b'0') ≡ q * 8 + d =
      rw (digit, whole) (bit_or_shift 3 q d (omega arith)) in
    ground (arith, place)

-- Every hexadecimal digit of either table is read as its value.
hex_table :
    (upper : Bool)
    → holds_below (λ d. let (ok, v) = hex_value (get_or (hex_digits upper) d 0) in ok && v == d) 16
      ≡ true
unfolding holds_below hex_value
hex_table true = refl
hex_table false = refl

pub hex_value-digit :
    (upper : Bool) (d : ℕ) → d < 16 → hex_value (get_or (hex_digits upper) d 0) ≡ (true, d)
hex_value-digit upper d h = ground (
  arith,
  holds_below_sound (λ d. let (ok, v) = hex_value (get_or (hex_digits upper) d 0) in ok && v == d)
      16 d h (hex_table upper),
)

Reads-hex : (upper : Bool) → Reads hex_loop (λ d. get_or (hex_digits upper) d 0) 16 (2 ^ 64)
unfolding hex_loop
Reads-hex upper rest q d small fits =
    let whole : q * 2 ^ 4 % 2 ^ 64 ≡ q * 2 ^ 4 = omega arith in
    let place : bit_or (q * 2 ^ 4 % 2 ^ 64) d ≡ q * 16 + d =
      rw whole (bit_or_shift 4 q d (omega arith)) in
    rw (hex_value-digit upper d small, hex_loop, place)

decimal_loop_stops :
    (modulus : ℕ) (rest : Bytes) (v : ℕ)
    → is_digit (peek rest) ≡ false
    → decimal_loop modulus rest v ≡ v
unfolding decimal_loop is_digit
decimal_loop_stops modulus [] v h = refl
decimal_loop_stops modulus (c ∷ rest) v h = rw h

-- A printed `unsigned int` is read back, whatever follows it that is no digit.
pub str_to_uint-uint_to_str :
    (v : ℕ) (rest : Bytes)
    → v < 2 ^ 32
    → is_digit (peek rest) ≡ false
    → str_to_uint ((uint_to_str v).0 ++ rest) ≡ v
unfolding str_to_uint uint_to_str
str_to_uint-uint_to_str v rest fits stop =
    loop-to_text (decimal_loop (2 ^ 32)) decimal_digit 10 (2 ^ 32) (omega arith)
      (Reads-decimal (2 ^ 32)) refl v rest fits
    ∙ decimal_loop_stops (2 ^ 32) rest v stop

-- An `unsigned int` takes at most ten digits, and the returned length is the text's.
pub length-uint_to_str :
    (v : ℕ)
    → v < 2 ^ 32
    → (length (uint_to_str v).0 ≤ 10) × ((uint_to_str v).1 ≡ length (uint_to_str v).0)
unfolding uint_to_str
length-uint_to_str v fits =
    length-to_text decimal_digit 10 (omega arith) 10 v (omega arith) (omega arith)

-- An `unsigned long` takes at most twenty digits.
pub length-ulong_to_str :
    (v : ℕ)
    → v < 2 ^ 64
    → (length (ulong_to_str v).0 ≤ 20) × ((ulong_to_str v).1 ≡ length (ulong_to_str v).0)
unfolding ulong_to_str
length-ulong_to_str v fits =
    length-to_text decimal_digit 10 (omega arith) 20 v (omega arith) (omega arith)

decimal_loop-ulong_to_str : (v : ℕ) → v < 2 ^ 64 → decimal_loop (2 ^ 64) (ulong_to_str v).0 0 ≡ v
unfolding ulong_to_str is_digit
decimal_loop-ulong_to_str v fits =
    let whole =
      loop-to_text (decimal_loop (2 ^ 64)) decimal_digit 10 (2 ^ 64) (omega arith)
        (Reads-decimal (2 ^ 64)) refl v [] fits in
    rw append-nil at whole ∙ decimal_loop_stops (2 ^ 64) [] v refl

-- What a C `long` can hold.
abbrev pub IsLong : ℤ → Type 0
IsLong i = (pos_part i < 2 ^ 63) × (neg_part i ≤ 2 ^ 63)

pub ulong_to_str-no_minus : (v : ℕ) → All (λ c. c ≢ b'-') (ulong_to_str v).0
unfolding ulong_to_str
ulong_to_str-no_minus v =
    All-to_text (λ c. c ≢ b'-') decimal_digit 10 (omega arith) (λ d h. omega arith) v (omega arith)

pub str_to_long_pos :
    (s : Bytes) → All (λ c. c ≢ b'-') s → str_to_long s ≡ signed64 (decimal_loop (2 ^ 64) s 0)
unfolding str_to_long
str_to_long_pos [] h = refl
str_to_long_pos (c ∷ s) h = ground (arith, h.0)

-- Every `long` survives printing and parsing, the smallest included.
pub str_to_long-long_to_str : (i : ℤ) → IsLong i → str_to_long (long_to_str i).0 ≡ i
unfolding long_to_str
str_to_long-long_to_str (pos n) h =
    str_to_long_pos (ulong_to_str n).0 (ulong_to_str-no_minus n)
    ∙ rw (decimal_loop-ulong_to_str n (omega arith)) (ground arith)
str_to_long-long_to_str (negsuc n) h =
    let whole : suc n % 2 ^ 64 ≡ suc n = omega arith in
    rw whole
      (unfold str_to_long in rw (decimal_loop-ulong_to_str (suc n) (omega arith)) (ground arith))

-- A printed octal number is read back.
pub oct_to_uint-uint_to_oct : (v : ℕ) → v < 2 ^ 32 → oct_to_uint (uint_to_oct v).0 ≡ v
unfolding oct_to_uint uint_to_oct
oct_to_uint-uint_to_oct v fits =
    let whole =
      loop-to_text oct_loop decimal_digit 8 (2 ^ 32) (omega arith) Reads-oct refl v [] fits in
    rw append-nil at whole

-- A text of hexadecimal digits has no `0x` in front.
skip_0x_none : (s : Bytes) → All (λ c. (hex_value c).0 ≡ true) s → skip_0x s ≡ s
unfolding skip_0x hex_value
skip_0x_none [] h = refl
skip_0x_none (z ∷ []) h = refl
skip_0x_none (z ∷ x ∷ s) h = ground (arith, h.1)

-- A number printed in hexadecimal, in either case, is read back.
pub hex_to_ulong-ulong_to_hex :
    (v : ℕ) (upper : Bool) → v < 2 ^ 64 → hex_to_ulong (ulong_to_hex v upper).0 ≡ v
unfolding hex_to_ulong ulong_to_hex
hex_to_ulong-ulong_to_hex v upper fits =
    let digit = λ (d : ℕ). get_or (hex_digits upper) d 0 in
    let zero_digit : digit 0 ≡ b'0' = elim upper as (λ u. get_or (hex_digits u) 0 0 ≡ b'0') [
      | true ↦ refl
      | false ↦ refl
    ] in
    let whole =
      loop-to_text hex_loop digit 16 (2 ^ 64) (omega arith) (Reads-hex upper) zero_digit v []
        fits in
    let all_hex =
      All-to_text (λ c. (hex_value c).0 ≡ true) digit 16 (omega arith)
        (λ d h. ap (λ r. r.0) (hex_value-digit upper d h)) v (unfold hex_value in refl) in
    rw (skip_0x_none (to_text digit 16 v).0 all_hex) (rw append-nil at whole)
