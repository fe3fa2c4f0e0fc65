-- ===== src/Streams/Words.antt =====
-- tools/wc.c: the counts of lines, words and bytes.
pub mod Split
use qoot.Base.{
  ℕ, suc, ◌+◌, ◌-◌, ◌%◌, ◌^◌, ◌<◌, Bool, true, false, ◌||◌, ◌&&◌, not, List, [], ◌∷◌, ◌++◌, Option,
  none, some, Bytes, codes, length, replicate, ltb, ◌==◌, if◌then◌else◌,
}
use qoot.Io.{Reader}
use qoot.Streams.{read_bytes}
use qoot.Str.Digits.{ulong_to_str}

-- `' '`, `'\t'`, `'\n'` or `'\r'`
unfoldable pub is_separator : ℕ → Bool
is_separator c = c == 32 || c == 9 || c == 10 || c == 13

pub record Counts : Type 0 where
  pub lines : ℕ
  pub words : ℕ
  pub bytes : ℕ

-- The counts, and `in_word`. The code adds the bytes of a piece at once.
unfoldable pub count_byte : Counts × Bool → ℕ → Counts × Bool
unfolding is_separator
count_byte (n, in_word) c =
    let blank = is_separator c in
    (
      record {
        lines = if c == 10 then (n.lines + 1) % 2 ^ 64 else n.lines;
        words = if blank || in_word then n.words else (n.words + 1) % 2 ^ 64;
        bytes = (n.bytes + 1) % 2 ^ 64;
      },
      not blank,
    )

abbrev pub nothing : Counts
nothing = record { lines = 0; words = 0; bytes = 0 }

unfoldable pub pad_num : ℕ → ℕ → Bytes
unfolding ulong_to_str
pad_num n w = let text = (ulong_to_str n).0 in replicate (w - length text) 32 ++ text

-- What is shown: `-l`, `-w` and `-c`, or all of them where none is given.
pub record Shown : Type 0 where
  pub show_l : Bool
  pub show_w : Bool
  pub show_c : Bool

unfoldable pub or_all : Shown → Shown
or_all o =
    if o.show_l || o.show_w || o.show_c
    then o
    else record { show_l = true; show_w = true; show_c = true }

unfoldable pub counts_text : Shown → Counts → Bytes
unfolding pad_num
counts_text o n =
    (if o.show_l then pad_num n.lines 8 else [])
    ++ ((if o.show_w then pad_num n.words 8 else [])
        ++ (if o.show_c then pad_num n.bytes 8 else []))

unfoldable pub add : Counts → Counts → Counts
add a b = record {
  lines = (a.lines + b.lines) % 2 ^ 64;
  words = (a.words + b.words) % 2 ^ 64;
  bytes = (a.bytes + b.bytes) % 2 ^ 64;
}

module _ (k : Reader) (f : ℕ) where
  unfoldable pub count_stream : k.State → Counts
  unfolding count_byte
  count_stream fd = (read_bytes k count_byte 4096 f fd (nothing, false)).0

  -- The loop over the files, which gives the text and the totals; `none` is one that is not opened.
  unfoldable pub wc_files : Shown → List (Bytes × Option k.State) → Counts → Bytes × Counts
  unfolding count_stream counts_text add
  wc_files o [] total = ([], total)
  wc_files o ((name, none) ∷ files) total = wc_files o files total
  wc_files o ((name, some fd) ∷ files) total =
      let n = count_stream fd in
      let (text, sum) = wc_files o files (add total n) in
      (counts_text o n ++ 32 ∷ (name ++ 10 ∷ text), sum)

  -- `wc_main` behind its options, on the standard input or the files.
  unfoldable pub wc_main : Shown → k.State → List (Bytes × Option k.State) → Bytes
  unfolding wc_files or_all
  wc_main options stdin [] = counts_text (or_all options) (count_stream stdin) ++ 10 ∷ []
  wc_main options stdin files =
      let (text, total) = wc_files (or_all options) files nothing in
      if ltb 1 (length files)
      then text ++ (counts_text (or_all options) total ++ codes " total\n")
      else text
