-- ===== src/Tests/Strings.antt =====
-- include/string.h: runs and witnesses.
use qoot.Base.{◌≡◌, refl, ◌∷◌, ◌++◌, some, codes}
use qoot.Str.{str_ncpy, str_str}
use qoot.Str.Digits.{uint_to_str, ulong_to_str}
use qoot.Str.Parse.{str_to_uint, hex_to_ulong}

print_zero : uint_to_str 0 ≡ (codes "0", 1)
unfolding uint_to_str
print_zero = refl

print_largest : ulong_to_str 18446744073709551615 ≡ (codes "18446744073709551615", 20)
unfolding ulong_to_str
print_largest = refl

parse_wraps : str_to_uint (codes "4294967297") ≡ 1
unfolding str_to_uint
parse_wraps = refl

parse_hex : hex_to_ulong (codes "0xFfz") ≡ 255
unfolding hex_to_ulong
parse_hex = refl

find_needle : str_str (codes "aabab") (codes "ab") ≡ some (codes "abab")
unfolding str_str
find_needle = refl

-- Five bytes are stored for a bound of four.
copy_overruns : str_ncpy (codes "xxxxxx") (codes "ab") 4 ≡ codes "ab" ++ 0 ∷ 0 ∷ 0 ∷ codes "x"
unfolding str_ncpy
copy_overruns = refl
