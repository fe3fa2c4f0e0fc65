-- ===== src/Sh/Words/Loop.antt =====
-- tools/sh.c: the words that `parse_args` finds in a line.
use qoot.Base.{
  ℕ, zero, suc, ◌≤◌, ◌≡◌, ◌≢◌, refl, ap, sym, ◌∙◌, true, false, List, [], ◌∷◌, ◌++◌, append-nil,
  Bytes, length, take, All, arith, ne→==,
}
use qoot.Sh.Words.{is_blank, skip_blanks, next_word, words_loop, parse_args}
use qoot.Str.{peek}
use qoot.Sh.Words.Spelling.{Line, next_word-more, next_word-final, spelling_starts}

-- The blanks before a place do not matter.
words_loop_same :
    (n : ℕ) (p p' : Bytes) → skip_blanks p ≡ skip_blanks p' → words_loop n p ≡ words_loop n p'
unfolding words_loop
words_loop_same zero p p' e = refl
words_loop_same (suc n) p p' e = rw e refl

skip_blanks_to :
    (blanks rest : Bytes)
    → All (λ c. is_blank c ≡ true) blanks
    → is_blank (peek rest) ≡ false
    → skip_blanks (blanks ++ rest) ≡ rest
unfolding skip_blanks
skip_blanks_to [] [] h stop = refl
skip_blanks_to [] (c ∷ rest) h stop = rw stop refl
skip_blanks_to (b ∷ blanks) rest h stop = rw h.0 (skip_blanks_to blanks rest h.1 stop)

words_loop_word :
    (n : ℕ) (at word after : Bytes)
    → peek at ≢ 0
    → is_blank (peek at) ≡ false
    → next_word at ≡ (word, after)
    → (blanks : Bytes) → All (λ c. is_blank c ≡ true) blanks
    → words_loop (suc n) (blanks ++ at) ≡ word ∷ words_loop n after
unfolding words_loop
words_loop_word n at word after some_byte start found blanks h =
    rw (skip_blanks_to blanks at h start) (rw (found, ne→== (peek at) 0 some_byte) refl)

skip_blanks_all :
    (blanks : Bytes) → All (λ c. is_blank c ≡ true) blanks → skip_blanks blanks ≡ skip_blanks []
unfolding skip_blanks
skip_blanks_all [] h = refl
skip_blanks_all (b ∷ blanks) h = rw h.0 (skip_blanks_all blanks h.1)

words_loop_end : (n : ℕ) → words_loop n [] ≡ []
unfolding words_loop skip_blanks
words_loop_end zero = refl
words_loop_end (suc n) = refl

take_none : (n : ℕ) → take {A = Bytes} n [] ≡ []
take_none zero = refl
take_none (suc n) = refl

words_loop-Line :
    (n : ℕ) (words : List Bytes) (line : Bytes) → Line words line → words_loop n line ≡ take n words
unfolding words_loop
words_loop-Line zero words line l = refl
words_loop-Line (suc n) _ _ (Line.last blanks h) =
    words_loop_same (suc n) blanks [] (skip_blanks_all blanks h) ∙ words_loop_end (suc n)
words_loop-Line (suc n) _ line (Line.final blanks word text _ h spelled e) =
    let start = rw (append-nil text) at (spelling_starts word text [] spelled) in
    ap (words_loop (suc n)) e
    ∙ words_loop_word n text word [] start.0 start.1 (next_word-final word text spelled) blanks h
    ∙ ap (◌∷◌ word) (words_loop_end n ∙ sym (take_none n))
words_loop-Line (suc n) _ _ (Line.more {words} {line} blanks word text gap _ h spelled blank l e) =
    let start = spelling_starts word text (gap ∷ line) spelled in
    let (after, found, same) = next_word-more word text line gap spelled blank in
    ap (words_loop (suc n)) e
    ∙ words_loop_word n (text ++ gap ∷ line) word after start.0 start.1 found blanks h
    ∙ ap (◌∷◌ word) (words_loop_same n after line same ∙ words_loop-Line n words line l)

-- In a line that spells its words bare or between quotes, with blanks between them, the words are
-- those that it spells, and the first 63 of them if there are more.
pub parse_args-Line :
    (words : List Bytes) (line : Bytes) → Line words line → parse_args line ≡ take 63 words
unfolding parse_args
parse_args-Line words line l = words_loop-Line 63 words line l

length-words_loop : (n : ℕ) (p : Bytes) → length (words_loop n p) ≤ n
unfolding words_loop
length-words_loop zero p = omega arith
length-words_loop (suc n) p = ground (arith, length-words_loop n (next_word (skip_blanks p)).1)

pub length-parse_args : (line : Bytes) → length (parse_args line) ≤ 63
unfolding parse_args
length-parse_args line = length-words_loop 63 line
