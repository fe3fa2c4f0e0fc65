-- ===== src/Tests/Editor.antt =====
-- tools/sed.c: runs and witnesses.
use mathlib.Core.List.{cons-ne-nil}
use qoot.Base.{◌≡◌, refl, true, false, [], ◌∷◌, ◌++◌, codes, arith}
use qoot.Str.{str_str, str_len}
use qoot.Str.Parse.{str_to_uint}
use qoot.Sed.{parse_sed_cmd, sed_substitute, sed_lines}
use qoot.Sed.Replace.{Occurs, IsFirst, Replaced, rest, one}
use qoot.Sed.Substitute.{sed_substitute-Replaced}

delete_second :
    sed_lines false ((parse_sed_cmd (codes "2d")).1 ∷ []) 0 (codes "a" ∷ codes "b" ∷ codes "c" ∷ [])
    ≡ codes "a\nc\n"
unfolding sed_lines parse_sed_cmd str_to_uint
delete_second = refl

quit_after_range :
    sed_lines false
      ((parse_sed_cmd (codes "2,3s/b/xx/g")).1 ∷ (parse_sed_cmd (codes "3q")).1 ∷ [])
      0
      (codes "abb" ∷ codes "abb" ∷ codes "b" ∷ codes "never" ∷ [])
    ≡ codes "abb\naxxxx\nxx\nb\n"
unfolding sed_lines parse_sed_cmd str_to_uint str_len str_str
quit_after_range = refl

b-IsFirst : IsFirst (codes "b") (codes "a") (codes "cb")
b-IsFirst [] t e = absurd (ground arith)
b-IsFirst (x ∷ p) t e = omega arith

b_again-IsFirst : IsFirst (codes "b") (codes "c") []
b_again-IsFirst [] t e = absurd (ground arith)
b_again-IsFirst (x ∷ p) t e = omega arith

no_b : ¬ Occurs (codes "b") []
no_b ([], t, e) = absurd (ground arith)
no_b (x ∷ p, t, e) = absurd (ground arith)

every_b : Replaced (codes "b") (codes "xy") (codes "abcb") (codes "axycxy")
every_b =
    one (codes "a") (codes "cb") (codes "cxy") b-IsFirst
      (one (codes "c") [] [] b_again-IsFirst (rest [] no_b))

sed_substitute_all_example :
    sed_substitute (codes "abcb") (codes "b") (codes "xy") true ≡ codes "axycxy" ++ 10 ∷ []
sed_substitute_all_example =
    sed_substitute-Replaced (codes "abcb") (codes "b") (codes "xy") (codes "axycxy")
      (cons-ne-nil _ _) ((omega arith, omega arith), tt) every_b (omega arith)
