-- ===== src/Printf.antt =====
-- tools/printf.c: the format and what is written for it.
pub mod Widths
pub mod Ends
use Prim.Native.Nat.{bit_or}
use qoot.Base.{
  ℕ, zero, suc, ◌+◌, ◌-◌, ◌*◌, ◌%◌, ◌^◌, Bool, true, false, not, ◌&&◌, ◌||◌, List, [], ◌∷◌, ◌++◌,
  Option, none, some, Bytes, length, drop, get_or, replicate, ltb, leb, ◌==◌, if◌then◌else◌,
}
use qoot.Base.Int.{ℤ, pos, negsuc}
use qoot.Str.{peek, is_digit}
use qoot.Str.Digits.{long_to_str, ulong_to_str, ulong_to_hex, to_text, decimal_digit}
use qoot.Str.Parse.{str_to_long, decimal_loop, hex_loop}

-- `width > len ? width - len : 0`, of the bit pattern of an `int`.
abbrev pub pad_of : ℕ → ℕ → ℕ
pad_of width len = if ltb len width && ltb width (2 ^ 31) then width - len else 0

unfoldable pub put_padded_str : Bytes → ℕ → Bool → Bytes
put_padded_str s width left_align =
    let blanks = replicate (pad_of width (length s)) b' ' in
    if left_align then s ++ blanks else blanks ++ s

unfoldable pub put_padded_num : Bytes → ℕ → Bool → Bool → Bytes
put_padded_num num width left_align zero_pad =
    let signed = zero_pad && peek num == b'-' in
    let sign = if signed then b'-' ∷ [] else [] in
    let digits = if signed then drop 1 num else num in
    let pad = if signed then pad_of width (length digits + 1) else pad_of width (length num) in
    if left_align
    then sign ++ (digits ++ replicate pad b' ')
    else sign ++ (replicate pad (if zero_pad then b'0' else b' ') ++ digits)

-- The 64-bit pattern of a `long`.
abbrev pub to_ulong : ℤ → ℕ
to_ulong (pos n) = n
to_ulong (negsuc n) = 2 ^ 64 - suc n % 2 ^ 64

-- The argument of `%x`: a hexadecimal literal, or a decimal number.
unfoldable pub hex_arg : Bytes → ℕ
hex_arg (z ∷ x ∷ s) =
    if z == b'0' && (x == b'x' || x == b'X')
    then hex_loop s 0
    else to_ulong (str_to_long (z ∷ x ∷ s))
hex_arg s = to_ulong (str_to_long s)

-- The flags and the width of a directive.
pub record Field : Type 0 where
  pub left_align : Bool
  pub zero_pad : Bool
  pub width : ℕ

-- `while (*p >= '0' && *p <= '9') { width = width * 10 + (*p - '0'); p++; }`, of an `int`,
-- which is taken to wrap.
unfoldable pub width_loop : ℕ → Bytes → ℕ × Bytes
unfolding is_digit
width_loop width [] = (width, [])
width_loop width (c ∷ p) =
    if is_digit c then width_loop ((width * 10 + (c - b'0')) % 2 ^ 32) p else (width, c ∷ p)

unfoldable pub parse_field : Bytes → Field × Bytes
unfolding width_loop
parse_field p =
    let left_align = peek p == b'-' in
    let p1 = if left_align then drop 1 p else p in
    let zero_pad = peek p1 == b'0' in
    let (width, p2) = width_loop 0 (if zero_pad then drop 1 p1 else p1) in
    (record { left_align = left_align; zero_pad = zero_pad; width = width }, p2)

-- The flags and the width, applied to the text of a number.
unfoldable pub number : Field → Bytes → Bytes × Bool
unfolding put_padded_num
number f text = (put_padded_num text f.width f.left_align f.zero_pad, true)

-- What is written for a conversion, and whether it takes an argument.
unfoldable pub convert : Field → ℕ → Bytes → Bytes × Bool
unfolding put_padded_str number hex_arg
convert f c arg =
    if c == b's'
    then (put_padded_str arg f.width f.left_align, true)
    else if c == b'd' || c == b'i'
    then number f (long_to_str (str_to_long arg)).0
    else if c == b'u'
    then number f (ulong_to_str (decimal_loop (2 ^ 64) arg 0)).0
    else if c == b'x' || c == b'X'
    then number f (ulong_to_hex (hex_arg arg) (c == b'X')).0
    else if c == b'o'
    then number f (to_text decimal_digit 8 (to_ulong (str_to_long arg))).0
    else if c == b'c'
    then (peek arg ∷ [], true)
    else if c == b'%'
    then (b'%' ∷ [], false)
    else (b'%' ∷ c ∷ [], false)

-- At most `n` octal digits, of an `unsigned char`.
unfoldable pub octal_loop : ℕ → ℕ → Bytes → ℕ × Bytes
octal_loop zero val p = (val, p)
octal_loop (suc n) val [] = (val, [])
octal_loop (suc n) val (c ∷ p) =
    if leb b'0' c && leb c b'7'
    then octal_loop n (bit_or (val * 2 ^ 3 % 256) (c - b'0')) p
    else (val, c ∷ p)

-- What is written for the byte behind a backslash, and the format behind it.
unfoldable pub escape : ℕ → Bytes → Bytes × Bytes
unfolding octal_loop
escape c p =
    if c == b'n'
    then (10 ∷ [], p)
    else if c == b't'
    then (9 ∷ [], p)
    else if c == b'r'
    then (13 ∷ [], p)
    else if c == b'\\'
    then (b'\\' ∷ [], p)
    else if c == b'0'
    then (let (val, after) = octal_loop 3 0 p in (val ∷ [], after))
    else (b'\\' ∷ c ∷ [], p)

-- `argi < argc ? argv[argi++] : ""`, where `argi` counts from the format on.
unfoldable pub next_arg : List Bytes → ℕ → Bytes × ℕ
next_arg argv argi = if ltb argi (length argv) then (get_or argv argi [], argi + 1) else ([], argi)

-- Text that is written before the rest of the output.
abbrev pub put_before : Bytes → Option Bytes → Option Bytes
put_before text none = none
put_before text (some rest) = some (text ++ rest)

-- The loop over the format; every round passes over a byte of it. A conversion that takes no
-- argument steps `argi` back. It is `none` where the loop goes on behind the format's terminator.
unfoldable pub format_loop : List Bytes → ℕ → Bytes → ℕ → Option Bytes
unfolding convert escape parse_field next_arg
format_loop argv f [] argi = some []
format_loop argv zero (c ∷ p) argi = none
format_loop argv (suc f) (c ∷ p) argi =
    let plain = put_before (c ∷ []) (format_loop argv f p argi) in
    let (field, at) = parse_field p in
    let (arg, past) = next_arg argv argi in
    let (text, takes) = convert field (peek at) arg in
    let converted =
      put_before text (format_loop argv f (drop 1 at) (if takes then past else past - 1)) in
    let (byte, after) = escape (peek p) (drop 1 p) in
    let escaped = put_before byte (format_loop argv f after argi) in
    if c == b'\\'
    then (if peek p == 0 then none else escaped)
    else if c == b'%'
    then (if peek at == 0 then none else converted)
    else plain

-- `argv` from the format on.
unfoldable pub printf_main : Bytes → List Bytes → Option Bytes
unfolding format_loop
printf_main fmt args = format_loop (fmt ∷ args) (length fmt) fmt 1
