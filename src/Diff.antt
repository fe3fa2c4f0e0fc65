-- ===== src/Diff.antt =====
-- tools/diff.c: reading the lines of both files, and the loop that compares them. A hunk is what
-- one round prints; `hunk_text` is its text.
pub mod Patch
pub mod Ahead
pub mod Files
use qoot.Base.{
  ℕ, zero, suc, ◌+◌, ◌-◌, ◌*◌, Bool, true, false, ◌&&◌, List, [], ◌∷◌, ◌++◌, Option, none, some,
  Bytes, codes, length, take, drop, ltb, leb, ◌==◌, if◌then◌else◌,
}
use qoot.Base.Int.{pos}
use qoot.Io.{Reader, read_line}
use qoot.Str.{cstr, str_eq}
use qoot.Str.Digits.{int_to_str}

-- `first`, `last` and `behind` are line numbers.
pub data Hunk : Type 0 where
  removed : (first last behind : ℕ) → List Bytes → Hunk
  added : (behind first last : ℕ) → List Bytes → Hunk
  changed : (line_a line_b : ℕ) → Bytes → Bytes → Hunk

-- What the look-ahead finds: the lines of one file that are to be passed over.
pub data Sync : Type 0 where
  in_a in_b : ℕ → Sync
  unsynced : Sync

-- `i < n && str_cmp(lines[i], line) == 0`, on the lines from `i` on.
unfoldable pub next_is : List Bytes → Bytes → Bool
next_is [] line = false
next_is (l ∷ lines) line = str_eq l line

-- The rounds of the look-ahead that are left, on the lines from `ia + look` and `ib + look` on.
unfoldable pub look_ahead : Bytes → Bytes → ℕ → ℕ → List Bytes → List Bytes → Sync
unfolding next_is
look_ahead line_a line_b zero look a b = unsynced
look_ahead line_a line_b (suc rounds) look a b =
    let further = look_ahead line_a line_b rounds (suc look) (drop 1 a) (drop 1 b) in
    if next_is a line_b then in_a look else if next_is b line_a then in_b look else further

-- The lines that remain in one file when the other is at its end.
unfoldable pub remaining : ℕ → ℕ → List Bytes → List Bytes → List Hunk
remaining ia ib (x ∷ a) b = removed (ia + 1) (ia + length (x ∷ a)) ib (x ∷ a) ∷ []
remaining ia ib [] (y ∷ b) = added ia (ib + 1) (ib + length (y ∷ b)) (y ∷ b) ∷ []
remaining ia ib [] [] = []

-- The loop, on the lines from `ia` and `ib` on, for at most `f` rounds.
unfoldable pub diff_loop : ℕ → ℕ → ℕ → List Bytes → List Bytes → List Hunk
unfolding remaining look_ahead
diff_loop zero ia ib a b = []
diff_loop (suc f) ia ib [] b = remaining ia ib [] b
diff_loop (suc f) ia ib (x ∷ a) [] = remaining ia ib (x ∷ a) []
diff_loop (suc f) ia ib (x ∷ a) (y ∷ b) =
    let same = diff_loop f (suc ia) (suc ib) a b in
    let next : List Hunk = elim (look_ahead x y 99 1 a b) as (λ _. List Hunk) [
      | in_a look ↦
          removed (ia + 1) (ia + look) ib (take look (x ∷ a))
          ∷ diff_loop f (ia + look) ib (drop look (x ∷ a)) (y ∷ b)
      | in_b look ↦
          added ia (ib + 1) (ib + look) (take look (y ∷ b))
          ∷ diff_loop f ia (ib + look) (x ∷ a) (drop look (y ∷ b))
      | unsynced ↦ changed (ia + 1) (ib + 1) x y ∷ diff_loop f (suc ia) (suc ib) a b
    ] in
    if str_eq x y then same else next

unfoldable pub simple_diff : List Bytes → List Bytes → List Hunk
unfolding diff_loop
simple_diff a b = diff_loop (length a + length b + 1) 0 0 a b

-- `first`, or `first,last`
unfoldable pub line_range : ℕ → ℕ → Bytes
unfolding int_to_str
line_range first last =
    let start = (int_to_str (pos first)).0 in
    if first == last then start else start ++ b',' ∷ (int_to_str (pos last)).0

unfoldable pub marked : Bytes → List Bytes → Bytes
marked mark [] = []
marked mark (line ∷ lines) = mark ++ line ++ 10 ∷ marked mark lines

unfoldable pub hunk_text : Hunk → Bytes
unfolding line_range marked int_to_str
hunk_text (removed first last behind lines) =
    line_range first last ++ b'd' ∷ (int_to_str (pos behind)).0 ++ 10 ∷ marked (codes "< ") lines
hunk_text (added behind first last lines) =
    (int_to_str (pos behind)).0 ++ b'a' ∷ line_range first last ++ 10 ∷ marked (codes "> ") lines
hunk_text (changed line_a line_b x y) =
    (int_to_str (pos line_a)).0
    ++ b'c' ∷ (int_to_str (pos line_b)).0
    ++ 10 ∷ marked (codes "< ") (x ∷ [])
    ++ codes "---\n"
    ++ marked (codes "> ") (y ∷ [])

-- `na == nb`, and `str_cmp` finds no difference.
unfoldable pub same_lines : List Bytes → List Bytes → Bool
same_lines [] [] = true
same_lines [] (y ∷ b) = false
same_lines (x ∷ a) [] = false
same_lines (x ∷ a) (y ∷ b) = str_eq x y && same_lines a b

-- `storage_pos + len + 1 > sizeof(line_storage)`
unfoldable pub is_stored : Bytes → ℕ → Bool
is_stored line storage_pos = leb (storage_pos + length line + 1) (512 * 1024)

-- The lines of a file: those stored, as strings, the descriptor, and `storage_pos`.
pub record Stored (S : Type 0) : Type 0 where
  pub lines : List Bytes
  pub fd : S
  pub storage_pos : ℕ

module _ (k : Reader) where
  -- `if (count < max)`: one line more, for a last line with no newline.
  unfoldable pub last_line : k.State → ℕ → Stored k.State
  unfolding read_line is_stored
  last_line fd storage_pos =
      let l = read_line k fd 4096 in
      let nothing : Stored k.State = record {
        lines = [];
        fd = l.rest;
        storage_pos = storage_pos;
      } in
      elim l.result as (λ _. Stored k.State) [
        | pos (suc n) ↦
            if is_stored l.text storage_pos
            then record {
              lines = cstr l.text ∷ [];
              fd = l.rest;
              storage_pos = storage_pos + length l.text + 1;
            }
            else nothing
        | _ ↦ nothing
      ]

  -- The loop, with `max - count`.
  unfoldable pub store_lines : ℕ → k.State → ℕ → Stored k.State
  unfolding read_line is_stored last_line
  store_lines zero fd storage_pos = record { lines = []; fd = fd; storage_pos = storage_pos }
  store_lines (suc room) fd storage_pos =
      let l = read_line k fd 4096 in
      let more = store_lines room l.rest (storage_pos + length l.text + 1) in
      elim l.result as (λ _. Stored k.State) [
        | pos (suc n) ↦
            if is_stored l.text storage_pos
            then record {
              lines = cstr l.text ∷ more.lines;
              fd = more.fd;
              storage_pos = more.storage_pos;
            }
            else last_line l.rest storage_pos
        | _ ↦ last_line l.rest storage_pos
      ]

  -- `diff_main` on the two descriptors, `none` if `sys_open` fails: what is returned and printed.
  unfoldable pub diff_main : Option k.State → Option k.State → ℕ × List Hunk
  unfolding store_lines same_lines simple_diff
  diff_main none fd_b = (2, [])
  diff_main (some fd_a) none = (2, [])
  diff_main (some fd_a) (some fd_b) =
      let a = store_lines 8192 fd_a 0 in
      let b = store_lines 8192 fd_b a.storage_pos in
      if same_lines a.lines b.lines then (0, []) else (1, simple_diff a.lines b.lines)
