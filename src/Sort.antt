-- ===== src/Sort.antt =====
-- tools/sort.c: splitting the input into lines, the insertion sort, and the output.
--
-- The input is the text in `buf` before the first NUL. The sorted part of `lines` is a list from
-- its last element to its first, the order in which the inner loop walks it.
pub mod Order
pub mod Laws
pub mod Text
use qoot.Base.{
  ℕ, zero, suc, ◌+◌, ◌-◌, ◌*◌, Bool, true, false, not, ◌&&◌, List, [], ◌∷◌, ◌++◌, reverse, Bytes,
  leb, ltb, ◌==◌, if◌then◌else◌,
}
use qoot.Base.Int.{ℤ, pos, negsuc, pos_part, neg_part, sub_ℕ, gtb}
use qoot.Str.{str_cmp, str_eq}
use qoot.Str.Parse.{str_to_long}

-- `-cmp`
abbrev pub negate : ℤ → ℤ
negate i = sub_ℕ (neg_part i) (pos_part i)

-- A C truth value.
abbrev truth : Bool → ℕ
truth b = if b then 1 else 0

-- The `cmp` of the inner loop: of a line already placed and the one to insert.
unfoldable pub compare_lines : Bool → Bool → Bytes → Bytes → ℤ
compare_lines numeric reverse_flag a b =
    let cmp : ℤ =
      if numeric
      then sub_ℕ (truth (gtb (str_to_long a) (str_to_long b)))
          (truth (gtb (str_to_long b) (str_to_long a)))
      else str_cmp a b in
    if reverse_flag then negate cmp else cmp

-- `cmp <= 0`
abbrev pub not_positive : ℤ → Bool
not_positive i = not (gtb i (pos 0))

-- The `while`: lines above `saved` move up by one.
insert_line : Bool → Bool → Bytes → List Bytes → List Bytes
insert_line numeric reverse_flag saved [] = saved ∷ []
insert_line numeric reverse_flag saved (x ∷ before) =
    let shifted = x ∷ insert_line numeric reverse_flag saved before in
    if not_positive (compare_lines numeric reverse_flag x saved)
    then saved ∷ x ∷ before
    else shifted

-- The `for`, with the sorted part as accumulator.
insert_all : Bool → Bool → List Bytes → List Bytes → List Bytes
insert_all numeric reverse_flag [] done = done
insert_all numeric reverse_flag (l ∷ todo) done =
    insert_all numeric reverse_flag todo (insert_line numeric reverse_flag l done)

unfoldable pub sort_lines : Bool → Bool → List Bytes → List Bytes
unfolding insert_all insert_line compare_lines
sort_lines numeric reverse_flag lines = reverse (insert_all numeric reverse_flag lines [])

-- `while (*p && nlines < MAX_LINES)`: `room` lines may still be stored, and `from` cuts the rest.
next_line : ℕ → Bytes → (ℕ → List Bytes) → List Bytes
next_line zero buf from = []
next_line (suc room) [] from = []
next_line (suc room) (c ∷ buf) from = from room

-- The body of that loop; `line` is the current line so far, from its end.
cut_line : ℕ → Bytes → Bytes → List Bytes
cut_line room [] line = reverse line ∷ []
cut_line room (c ∷ buf) line =
    let next = reverse line ∷ next_line room buf (λ r. cut_line r buf []) in
    let more = cut_line room buf (c ∷ line) in if c == 10 then next else more

abbrev pub max_lines : ℕ
max_lines = 65536

-- `if (nlines > 0 && lines[nlines - 1][0] == '\0') nlines--;`
drop_empty_last : List Bytes → List Bytes
drop_empty_last [] = []
drop_empty_last ([] ∷ []) = []
drop_empty_last (l ∷ ls) = l ∷ drop_empty_last ls

unfoldable pub split_input : Bytes → List Bytes
unfolding next_line cut_line drop_empty_last
split_input buf = drop_empty_last (next_line max_lines buf (λ r. cut_line r buf []))

-- The output loop; `prev` is `lines[i - 1]`.
output_after : Bool → Bytes → List Bytes → Bytes
output_after unique prev [] = []
output_after unique prev (l ∷ ls) =
    let more = output_after unique l ls in if unique && str_eq l prev then more else l ++ 10 ∷ more

unfoldable pub output : Bool → List Bytes → Bytes
unfolding output_after
output unique [] = []
output unique (l ∷ ls) = l ++ 10 ∷ output_after unique l ls

-- `sort_main` behind its options and its reading of the files.
unfoldable pub sort_text : Bool → Bool → Bool → Bytes → Bytes
unfolding split_input sort_lines output
sort_text numeric reverse_flag unique buf =
    output unique (sort_lines numeric reverse_flag (split_input buf))
