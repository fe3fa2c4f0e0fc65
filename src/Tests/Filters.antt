-- ===== src/Tests/Filters.antt =====
-- tools/wc.c, tools/tr.c, tools/uniq.c and tools/xxd.c: runs and witnesses.
use qoot.Base.{◌≡◌, refl, false, true, [], ◌∷◌, some, none, codes, length, map, arith}
use qoot.Streams.{read_bytes}
use qoot.Streams.Translate.{tr_delete, tr_translate}
use qoot.Streams.Translate.Mapped.{tr_delete-without, tr_translate-translated, without, translated}
use qoot.Streams.Words.{count_stream, wc_main}
use qoot.Streams.Words.Split.{count_stream-words_of, words_of, count}
use qoot.Tests.Disk.{disk, disk_delivers}
use qoot.Base.{◌++◌}
use qoot.Str.Digits.{ulong_to_str}
use qoot.Str.{str_eq, cstr, str_ncpy}
use qoot.Uniq.{Flags, row, uniq_main}
use qoot.Uniq.Runs.{uniq_main-rows}
use qoot.Xxd.Columns.{IsRow, hex_line, xxd_reverse-rows}
use qoot.Base.{length, ◌<◌}
use qoot.Xxd.{offset_digits, hex_columns, dump_row, shown_byte, xxd_dump, xxd_reverse}
use qoot.Xxd.Endless.{IsShown, xxd_reverse_endless}
use qoot.Io.{read_lines}
use qoot.Str.Parse.{hex_value}

two_rows :
    xxd_dump disk 4 0 9 (codes "hi\nyou")
    ≡ codes "00000000: 68 69  0a 79  hi.y\n00000004: 6f 75         ou\n"
unfolding xxd_dump
two_rows = refl

back_again : xxd_reverse disk 9 9 (codes "0: 68690a 79\n") ≡ some (codes "hi\ny")
unfolding xxd_reverse read_lines cstr
back_again = refl

mark-IsShown : IsShown b'!'
unfolding shown_byte hex_value
mark-IsShown = (λ e. ground arith, refl)

greeting-IsRow : IsRow 4 (16, codes "hi\n")
unfolding hex_columns offset_digits
greeting-IsRow = (ground arith, omega arith, omega arith)

xxd_reverse-rows_example :
    xxd_reverse disk 511 2 (hex_line 4 (16, codes "hi\n") ++ 10 ∷ []) ≡ some (codes "hi\n" ++ [])
xxd_reverse-rows_example =
    xxd_reverse-rows disk disk_delivers 4 ((16, codes "hi\n") ∷ []) 511 2
      (hex_line 4 (16, codes "hi\n") ++ 10 ∷ []) (greeting-IsRow, tt) refl (omega arith)
      (omega arith)

bad_row_short : length (dump_row 16 0 (codes "bad" ++ b'!' ∷ [])) < 511
unfolding dump_row
bad_row_short = omega arith

xxd_reverse_endless_example :
    xxd_reverse disk 1000 1 (dump_row 16 0 (codes "bad" ++ b'!' ∷ []) ++ 10 ∷ []) ≡ none
xxd_reverse_endless_example =
    xxd_reverse_endless disk disk_delivers 16 0 (codes "bad") b'!' [] [] 1000 0
      (dump_row 16 0 (codes "bad" ++ b'!' ∷ []) ++ 10 ∷ []) mark-IsShown bad_row_short refl

abbrev counted : Flags
counted = record { count_flag = true; dup_only = true }

last_without_newline :
    uniq_main disk counted 9 (codes "a\na\nb\nc\nc") ≡ codes "      2 a\n      2 c\n"
unfolding uniq_main ulong_to_str str_eq cstr str_ncpy
last_without_newline = refl

uniq_main-rows_example :
    uniq_main disk counted 9 (codes "a\na\nb\n") ≡ row counted (codes "a") 2 ++ []
uniq_main-rows_example =
    uniq_main-rows disk disk_delivers counted ((codes "a", 2) ∷ (codes "b", 1) ∷ []) 9
      (codes "a\na\nb\n") refl (ground arith) (ground arith, tt) (omega arith)

two_files :
    wc_main disk 9
      (record { show_l = true; show_w = true; show_c = false })
      []
      ((codes "a", some (codes "x y\n"))
        ∷ (codes "b", none)
        ∷ (codes "c", some (codes " z\n"))
        ∷ [])
    ≡ codes "       1       2 a\n       1       1 c\n       2       3 total\n"
unfolding wc_main read_bytes
two_files = refl

count_stream_example : count_stream disk 10 (codes "to be\n or") ≡ record {
  lines = count 10 (codes "to be\n or");
  words = length (words_of (codes "to be\n or"));
  bytes = length (codes "to be\n or");
}
count_stream_example =
    count_stream-words_of disk disk_delivers 10 (codes "to be\n or") (omega arith) (omega arith)

tr_delete_example :
    tr_delete disk 9 (codes "banana\n") (codes "an") ≡ without (codes "an") (codes "banana\n")
tr_delete_example =
    tr_delete-without disk disk_delivers 9 (codes "banana\n") (codes "an") (omega arith)
      (omega arith)

last_place_wins : map (translated (codes "aba") (codes "xyz")) (codes "abc") ≡ codes "zyc"
unfolding translated
last_place_wins = refl

tr_translate_example :
    tr_translate disk 9 (codes "cabbage") (codes "abc") (some (codes "xy"))
    ≡ some (map (translated (codes "abc") (codes "xy")) (codes "cabbage"))
tr_translate_example =
    tr_translate-translated disk disk_delivers 9 (codes "cabbage") (codes "abc") b'x' (codes "y")
      (omega arith) (omega arith)
