-- ===== src/Xxd.antt =====
-- tools/xxd.c: the rows of a dump, and the bytes that are read back from one.
pub mod Endless
pub mod Columns
use Prim.Native.Nat.{bit_or}
use qoot.Base.{
  ℕ, zero, suc, ◌+◌, ◌*◌, ◌/◌, ◌%◌, ◌^◌, Bool, true, false, ◌&&◌, List, [], ◌∷◌, ◌++◌, Option, none,
  some, Bytes, codes, length, drop, get_or, map, leb, ◌==◌, if◌then◌else◌,
}
use qoot.Io.{Reader, got, failed, read_lines}
use qoot.Str.Digits.{hex_digits}
use qoot.Str.Parse.{hex_value}
use qoot.Str.{cstr}

abbrev pub hex_digit : ℕ → ℕ
hex_digit v = get_or (hex_digits false) (v % 16) 0

-- The last `n` hexadecimal digits of a number.
unfoldable pub offset_digits : ℕ → ℕ → Bytes
offset_digits zero offset = []
offset_digits (suc n) offset = offset_digits n (offset / 16) ++ hex_digit offset ∷ []

-- The columns from `i` on, where `n` are left; `cols / 2` is given as `half`.
unfoldable pub hex_columns : ℕ → ℕ → ℕ → Bytes → Bytes
hex_columns half i zero buf = []
hex_columns half i (suc n) buf =
    let gap = if i + 1 == half then 32 ∷ [] else [] in
    let later = gap ++ hex_columns half (suc i) n (drop 1 buf) in
    elim buf as (λ _. Bytes) [
      | [] ↦ codes "   " ++ later
      | (b ∷ _) ↦ hex_digit (b / 16) ∷ hex_digit b ∷ 32 ∷ later
    ]

unfoldable pub shown_byte : ℕ → ℕ
shown_byte b = if leb 32 b && leb b 126 then b else b'.'

-- The bytes of one read.
unfoldable pub dump_row : ℕ → ℕ → Bytes → Bytes
unfolding offset_digits hex_columns shown_byte
dump_row cols offset buf =
    offset_digits 8 offset
    ++ (codes ": " ++ (hex_columns (cols / 2) 0 cols buf ++ 32 ∷ map shown_byte buf))

-- `while (*p && *p != ':') p++; if (*p == ':') p++;`
unfoldable pub behind_colon : Bytes → Bytes
behind_colon [] = []
behind_colon (c ∷ p) = if c == b':' then p else behind_colon p

-- At most `n` hexadecimal digits, of an `unsigned char`. The shift comes before the test.
unfoldable pub nibbles : ℕ → ℕ → Bytes → ℕ × Bytes
unfolding hex_value
nibbles zero byte p = (byte, p)
nibbles (suc n) byte [] = (byte, [])
nibbles (suc n) byte (c ∷ p) =
    let (ok, d) = hex_value c in
    let shifted = byte * 2 ^ 4 % 256 in
    if ok then nibbles n (bit_or shifted d) p else (shifted, c ∷ p)

-- `sys_write(out_fd, &byte, 1)`, before the rest.
abbrev pub written : ℕ → Option Bytes → Option Bytes
written byte none = none
written byte (some bs) = some (byte ∷ bs)

-- The loop over a line, for at most `f` rounds: the bytes that are written, and `none` where it has
-- not ended by then. It skips the blanks at the start as well.
unfoldable pub hex_bytes : ℕ → Bytes → Option Bytes
unfolding nibbles
hex_bytes f [] = some []
hex_bytes zero (c ∷ p) = none
hex_bytes (suc f) (c ∷ p) =
    let (byte, after) = nibbles 2 0 (c ∷ p) in
    let blank = hex_bytes f p in
    let later = written byte (hex_bytes f after) in if c == b' ' then blank else later

-- A line as `read_line` leaves it in `line[512]`.
unfoldable pub reverse_line : ℕ → Bytes → Option Bytes
unfolding behind_colon hex_bytes
reverse_line f line = hex_bytes f (behind_colon (cstr line))

abbrev pub both : Option Bytes → Option Bytes → Option Bytes
both (some a) (some b) = some (a ++ b)
both _ _ = none

abbrev pub lines_bytes : ℕ → List Bytes → Option Bytes
lines_bytes f [] = some []
lines_bytes f (line ∷ lines) = both (reverse_line f line) (lines_bytes f lines)

module _ (k : Reader) where
  -- The loop over the reads, for at most `f` of them: what is printed.
  unfoldable pub xxd_dump : ℕ → ℕ → ℕ → k.State → Bytes
  unfolding dump_row
  xxd_dump cols offset zero fd = []
  xxd_dump cols offset (suc f) fd =
      let r = k.sys_read fd cols in
      elim r.0 as (λ _. Bytes) [
        | failed e ↦ []
        | got [] ↦ []
        | got (b ∷ buf) ↦
            let later = xxd_dump cols ((offset + length (b ∷ buf)) % 2 ^ 64) f r.1 in
            dump_row cols offset (b ∷ buf) ++ 10 ∷ later
      ]

  -- What is written, with at most `f` rounds for each of at most `n` lines.
  unfoldable pub xxd_reverse : ℕ → ℕ → k.State → Option Bytes
  unfolding reverse_line
  xxd_reverse f n fd = lines_bytes f (read_lines k n fd 512)
