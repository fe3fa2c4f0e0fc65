-- ===== src/Sort/Text.antt =====
-- tools/sort.c: from the text that is read to the text that is written.
use mathlib.Core.List.{Perm, reverse-cons}
use qoot.Base.{
  ℕ, zero, suc, ◌≤◌, ◌≡◌, ◌≢◌, refl, ap, ◌∙◌, Bool, false, List, [], ◌∷◌, ◌++◌, append-nil,
  append_assoc, reverse, Bytes, All, length, arith, ne→==,
}
use qoot.Io.Lines.{unlines}
use qoot.Str.{IsCString}
use qoot.Str.Search.{Lacks}
use qoot.Sort.{
  next_line, cut_line, max_lines, drop_empty_last, split_input, sort_lines, output_after, output,
  sort_text,
}
use qoot.Sort.Laws.{IsSorted, sort_lines-IsSorted, sort_lines-perm}

cut_line_one :
    (room : ℕ) (l rest line : Bytes)
    → Lacks 10 l
    → cut_line room (l ++ 10 ∷ rest) line
      ≡ (reverse line ++ l) ∷ next_line room rest (λ r. cut_line r rest [])
unfolding cut_line
cut_line_one room [] rest line free = rw append-nil
cut_line_one room (c ∷ l) rest line free =
    let same : reverse (c ∷ line) ++ l ≡ reverse line ++ c ∷ l =
      ap (λ t. t ++ l) (reverse-cons c line) ∙ append_assoc (reverse line) (c ∷ []) l in
    rw (ne→== c 10 free.0, cut_line)
      (cut_line_one room l rest (c ∷ line) free.1
        ∙ ap (λ t. t ∷ next_line room rest (λ r. cut_line r rest [])) same)

next_line-unlines :
    (room : ℕ) (ls : List Bytes)
    → All (Lacks 10) ls
    → length ls ≤ room
    → next_line room (unlines ls) (λ r. cut_line r (unlines ls) []) ≡ ls
unfolding next_line
next_line-unlines zero [] free fits = refl
next_line-unlines (suc room) [] free fits = refl
next_line-unlines zero (l ∷ ls) free fits = absurd (omega arith)
next_line-unlines (suc room) ([] ∷ ls) free fits =
    cut_line_one room [] (unlines ls) [] tt
    ∙ ap (λ t. [] ∷ t) (next_line-unlines room ls free.1 (omega arith))
next_line-unlines (suc room) ((c ∷ l) ∷ ls) free fits =
    cut_line_one room (c ∷ l) (unlines ls) [] free.0
    ∙ ap (λ t. (c ∷ l) ∷ t) (next_line-unlines room ls free.1 (omega arith))

-- There is no line, or the last one is not empty.
abbrev pub LastFull : List Bytes → Type 0
LastFull [] = Unit
LastFull (l ∷ []) = l ≢ []
LastFull (l ∷ m ∷ ls) = LastFull (m ∷ ls)

drop_empty_last-LastFull : (ls : List Bytes) → LastFull ls → drop_empty_last ls ≡ ls
unfolding drop_empty_last
drop_empty_last-LastFull [] h = refl
drop_empty_last-LastFull ([] ∷ []) h = absurd (h refl)
drop_empty_last-LastFull ((c ∷ l) ∷ []) h = refl
drop_empty_last-LastFull ([] ∷ m ∷ ls) h = ap (λ t. [] ∷ t) (drop_empty_last-LastFull (m ∷ ls) h)
drop_empty_last-LastFull ((c ∷ l) ∷ m ∷ ls) h =
    ap (λ t. (c ∷ l) ∷ t) (drop_empty_last-LastFull (m ∷ ls) h)

-- A text of lines is cut into its lines.
pub split_input-unlines :
    (ls : List Bytes)
    → All (Lacks 10) ls
    → LastFull ls
    → length ls ≤ max_lines
    → split_input (unlines ls) ≡ ls
unfolding split_input
split_input-unlines ls free full fits =
    rw (next_line-unlines max_lines ls free fits) (drop_empty_last-LastFull ls full)

output_after-unlines : (prev : Bytes) (ls : List Bytes) → output_after false prev ls ≡ unlines ls
unfolding output_after
output_after-unlines prev [] = refl
output_after-unlines prev (l ∷ ls) = ap (λ t. l ++ 10 ∷ t) (output_after-unlines l ls)

output-unlines : (ls : List Bytes) → output false ls ≡ unlines ls
unfolding output
output-unlines [] = refl
output-unlines (l ∷ ls) = ap (λ t. l ++ 10 ∷ t) (output_after-unlines l ls)

-- Without `-u`, `sort` writes the lines of its input, each once for each time it stands there, in
-- the order that the options ask for.
pub sort_text_lem :
    (numeric reverse_flag : Bool) (ls : List Bytes)
    → All IsCString ls
    → All (Lacks 10) ls
    → LastFull ls
    → length ls ≤ max_lines
    → (out : List Bytes) × (sort_text numeric reverse_flag false (unlines ls) ≡ unlines out)
      × Perm out ls
      × IsSorted numeric reverse_flag out
unfolding sort_text
sort_text_lem numeric reverse_flag ls c free full fits = (
  sort_lines numeric reverse_flag ls,
  rw (split_input-unlines ls free full fits) (output-unlines (sort_lines numeric reverse_flag ls)),
  sort_lines-perm numeric reverse_flag ls,
  sort_lines-IsSorted numeric reverse_flag ls c,
)
