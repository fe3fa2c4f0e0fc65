-- ===== src/Tar.antt =====
-- tools/tar.c: the octal fields, the checksum and the path of a header. A header is the list of
-- its 512 bytes, and a field the part of it where `struct tar_header` lays it out.
pub mod Fields
pub mod Writes
pub mod Header
pub mod Extract
pub mod Create
use Prim.Native.Nat.{bit_or}
use qoot.Base.{
  ℕ, zero, suc, ◌+◌, ◌-◌, ◌*◌, ◌/◌, ◌%◌, ◌^◌, Bool, true, false, ◌&&◌, [], ◌∷◌, ◌++◌, Bytes, take,
  drop, sum, get_or, leb, ◌==◌, if◌then◌else◌,
}
use qoot.Str.{cstr}

-- `for (i = 0; i < len && s[i] >= '0' && s[i] <= '7'; i++)` over the bytes of a field.
unfoldable pub tar_oct_loop : Bytes → ℕ → ℕ
tar_oct_loop [] val = val
tar_oct_loop (c ∷ s) val =
    let more = tar_oct_loop s (bit_or (val * 2 ^ 3 % 2 ^ 64) (c - b'0')) in
    if leb b'0' c && leb c b'7' then more else val

unfoldable pub tar_oct_to_ulong : Bytes → ℕ
unfolding tar_oct_loop
tar_oct_to_ulong s = tar_oct_loop s 0

-- The loop of `tar_ulong_to_oct`: n digits, the last one stored first.
unfoldable pub octal_digits : ℕ → ℕ → Bytes
octal_digits zero val = []
octal_digits (suc n) val = octal_digits n (val / 8) ++ (b'0' + val % 8) ∷ []

-- The field of `len` bytes.
unfoldable pub tar_ulong_to_oct : ℕ → ℕ → Bytes
unfolding octal_digits
tar_ulong_to_oct len val = octal_digits (len - 1) val ++ 0 ∷ []

-- The field of `len` bytes at an offset of the header.
abbrev pub field : Bytes → ℕ → ℕ → Bytes
field h offset len = take len (drop offset h)

-- The bytes of the field `chksum` count as spaces.
unfoldable pub tar_checksum : Bytes → ℕ
tar_checksum h = (256 + sum (field h 0 148) + sum (field h 156 356)) % 2 ^ 32

unfoldable pub tar_is_zero_block : Bytes → Bool
tar_is_zero_block [] = true
tar_is_zero_block (b ∷ block) = b == 0 && tar_is_zero_block block

-- What a reader of `out` sees: the prefix and a slash if there is a prefix, and the name.
unfoldable pub tar_build_path : Bytes → Bytes
unfolding cstr
tar_build_path h =
    let name = cstr (field h 0 100) in
    if get_or h 345 0 == 0 then name else cstr (field h 345 155) ++ b'/' ∷ name

-- `stored != computed` on the header's own field.
unfoldable pub checksum_holds : Bytes → Bool
unfolding tar_checksum
checksum_holds h = tar_oct_to_ulong (field h 148 8) % 2 ^ 32 == tar_checksum h
