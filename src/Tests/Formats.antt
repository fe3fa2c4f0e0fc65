-- ===== src/Tests/Formats.antt =====
-- tools/printf.c: runs and witnesses.
use Prim.Native.Nat.{max}
use qoot.Base.{◌≡◌, refl, true, false, none, some, [], ◌∷◌, codes, length, arith, inl}
use qoot.Base.Int.{negsuc}
use qoot.Printf.{printf_main, put_padded_num, format_loop, put_before}
use qoot.Printf.Ends.{format_loop_again, printf_main_ends}
use qoot.Printf.Widths.{str_to_long-put_padded_num}
use qoot.Str.Digits.{long_to_str, ulong_to_hex}
use qoot.Str.Parse.{str_to_long}

padded :
    printf_main (codes "%-4s|%05d|%x\\n") (codes "ab" ∷ codes "-42" ∷ codes "255" ∷ [])
    ≡ some (codes "ab  |-0042|ff\n")
unfolding printf_main long_to_str str_to_long ulong_to_hex
padded = refl

octal : printf_main (codes "\\0101%%") [] ≡ some (codes "A%")
unfolding printf_main
octal = refl

-- The only argument is written twice.
used_twice : printf_main (codes "%s%%%s") (codes "a" ∷ []) ≡ some (codes "a%a")
unfolding printf_main
used_twice = refl

format_loop_again_example :
    format_loop (codes "%s%%%s\\n" ∷ codes "a" ∷ []) 4 (codes "%%%s\\n") 2
    ≡ put_before
        (b'%' ∷ codes "a")
        (format_loop (codes "%s%%%s\\n" ∷ codes "a" ∷ []) 2 (codes "\\n") 2)
format_loop_again_example = format_loop_again (codes "%s%%%s\\n" ∷ []) (codes "a") (codes "\\n") 2

ends_early : printf_main (codes "100%") [] ≡ none
ends_early = printf_main_ends (codes "100") b'%' [] (omega arith) (inl refl)

str_to_long-put_padded_num_example :
    (length (put_padded_num (long_to_str (negsuc 41)).0 6 false true)
      ≡ max 6 (length (long_to_str (negsuc 41)).0))
    × (str_to_long (put_padded_num (long_to_str (negsuc 41)).0 6 false true) ≡ negsuc 41)
str_to_long-put_padded_num_example =
    str_to_long-put_padded_num (negsuc 41) 6 (omega arith) (omega arith)
