-- ===== src/Tests/Tools.antt =====
-- tools/: runs and witnesses.
use mathlib.Core.List.{Perm, cons-ne-nil}
use qoot.Base.{◌/◌, ◌≡◌, ◌≢◌, ◌↔◌, refl, true, false, List, [], ◌∷◌, Bytes, codes, get_or, arith}
use qoot.Cut.{cut_fields_line, in_ranges, shown}
use qoot.Cut.Joined.{joined, selected, cut_fields_line-joined}
use qoot.Base.Int.{pos, negsuc}
use qoot.Date.{day_names, break_down, date_text}
use qoot.Date.Calendar.{IsDateOf, break_down-IsDateOf}
use qoot.Date.Weekday.{weekday_name, weekday_wrong}
use qoot.Grep.{match_pattern, match_pattern_icase}
use qoot.Grep.Anywhere.{Occurs, match_pattern_iff}
use qoot.Io.Lines.{unlines}
use qoot.Sort.{sort_text}
use qoot.Sort.Laws.{IsSorted}
use qoot.Sort.Text.{sort_text_lem}
use qoot.Str.{str_cmp, str_eq}
use qoot.Str.Parse.{str_to_long}

star_match : match_pattern (codes "^a.*c$") (codes "abbbc") ≡ true
unfolding match_pattern
star_match = refl

plus_needs_one : match_pattern (codes "ab+c") (codes "xxac") ≡ false
unfolding match_pattern
plus_needs_one = refl

escaped_dot : match_pattern (codes "a\\.c") (codes "abc") ≡ false
unfolding match_pattern
escaped_dot = refl

-- The backslash is starred, not the star escaped.
starred_backslash : match_pattern (codes "^a\\*$") (codes "a*") ≡ false
unfolding match_pattern
starred_backslash = refl

ignore_case : match_pattern_icase (codes "HELLO") (codes "say hello") ≡ true
unfolding match_pattern_icase
ignore_case = refl

match_pattern_example :
    (match_pattern (codes "b+c") (codes "abbcd") ≡ true) ↔ Occurs (codes "b+c") (codes "abbcd")
match_pattern_example = match_pattern_iff (codes "b+c") (codes "abbcd") (omega arith)

sort_words : sort_text false false false (codes "pear\nfig\napple\n") ≡ codes "apple\nfig\npear\n"
unfolding sort_text str_cmp
sort_words = refl

sort_numbers : sort_text true true true (codes "9\n10\n9\n") ≡ codes "10\n9\n"
unfolding sort_text str_to_long str_eq
sort_numbers = refl

sort_text_example :
    (out : List Bytes) × (sort_text false true false (unlines (codes "a" ∷ [] ∷ codes "b" ∷ []))
      ≡ unlines out)
    × Perm out (codes "a" ∷ [] ∷ codes "b" ∷ [])
    × IsSorted false true out
sort_text_example =
    sort_text_lem false true (codes "a" ∷ [] ∷ codes "b" ∷ []) (omega arith) (omega arith)
      (cons-ne-nil _ _) (omega arith)

-- 2024-02-29 12:34:56 UTC was a Thursday.
leap_day : date_text 1709210096 ≡ codes "Mon Feb 29 12:34:56 UTC 2024\n"
unfolding date_text
leap_day = refl

-- A second before the epoch: the index of the weekday, and the second.
before_epoch : ((break_down (negsuc 0)).dow ≡ 4) × ((break_down (negsuc 0)).sec ≡ 59)
unfolding break_down
before_epoch = (refl, refl)

break_down_example : IsDateOf 1709210096 (break_down (pos 1709210096))
break_down_example = break_down-IsDateOf 1709210096 (omega arith)

weekday_wrong_example : get_or day_names (break_down (pos 0)).dow [] ≢ weekday_name (0 / 86400)
weekday_wrong_example = weekday_wrong 0

cut_third : cut_fields_line 58 ((1, 1) ∷ (3, 4) ∷ []) (codes "a:b:cd:") [] 1 true ≡ codes "a:cd:"
unfolding cut_fields_line in_ranges shown
cut_third = refl

cut_fields_line-joined_example :
    cut_fields_line 58
      ((1, 1) ∷ (3, 4) ∷ [])
      (joined 58 (codes "a" ∷ codes "b" ∷ codes "cd" ∷ []))
      []
      1
      true
    ≡ joined 58 (selected ((1, 1) ∷ (3, 4) ∷ []) 1 (codes "a" ∷ codes "b" ∷ codes "cd" ∷ []))
cut_fields_line-joined_example =
    cut_fields_line-joined 58 ((1, 1) ∷ (3, 4) ∷ []) (codes "a") (codes "b" ∷ codes "cd" ∷ [])
      ((omega arith, tt), ((omega arith, tt), ((omega arith, (omega arith, tt)), tt)))
