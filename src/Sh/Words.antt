-- ===== src/Sh/Words.antt =====
-- tools/sh.c: `parse_args`, the words of a command. The terminators that the code writes into the
-- line end the words that are given here.
pub mod Spelling
pub mod Loop
use qoot.Base.{
  ℕ, zero, suc, Bool, true, false, ◌||◌, List, [], ◌∷◌, Bytes, length, drop, ◌==◌, if◌then◌else◌,
}
use qoot.Str.{peek}

unfoldable pub is_blank : ℕ → Bool
is_blank c = c == b' ' || c == b'\t'

unfoldable pub skip_blanks : Bytes → Bytes
unfolding is_blank
skip_blanks [] = []
skip_blanks (c ∷ p) = if is_blank c then skip_blanks p else c ∷ p

-- The bytes before the first one that the test accepts.
unfoldable pub until : (ℕ → Bool) → Bytes → Bytes
until test [] = []
until test (c ∷ p) = if test c then [] else c ∷ until test p

-- The word before the next byte that the test accepts, and the line behind that byte.
unfoldable pub split_at : (ℕ → Bool) → Bytes → Bytes × Bytes
split_at test p = let word = until test p in (word, drop (suc (length word)) p)

-- The next word at `p`, which is no blank, and where the line goes on.
unfoldable pub next_word : Bytes → Bytes × Bytes
next_word p =
    if peek p == b'"'
    then split_at (λ c. c == b'"') (drop 1 p)
    else if peek p == b'\''
    then split_at (λ c. c == b'\'') (drop 1 p)
    else split_at is_blank p

-- The loop, for as many words as there is room.
unfoldable pub words_loop : ℕ → Bytes → List Bytes
words_loop zero p = []
words_loop (suc left) p =
    let at = skip_blanks p in
    let (word, after) = next_word at in
    let more = words_loop left after in if peek at == 0 then [] else word ∷ more

unfoldable pub parse_args : Bytes → List Bytes
parse_args line = words_loop 63 line

-- The pieces between the separators of a search path or a script, where an empty piece at the end
-- counts for nothing; there are no more of them than bytes.
unfoldable pub pieces : ℕ → ℕ → Bytes → List Bytes
pieces separator zero p = []
pieces separator (suc f) p =
    let piece = until (λ c. c == separator) p in
    let later = pieces separator f (drop (suc (length piece)) p) in
    if peek p == 0 then [] else piece ∷ later
