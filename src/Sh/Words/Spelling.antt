-- ===== src/Sh/Words/Spelling.antt =====
-- tools/sh.c: the words of a line that spells them, bare or between quotes.
use qoot.Base.{
  ℕ, suc, ◌≡◌, ◌≢◌, refl, ap, ◌∙◌, ◌⊎◌, inl, inr, Bool, true, false, List, [], ◌∷◌, ◌++◌,
  append_assoc, Bytes, length, drop, All, All-imply, arith, ne→==, eq→==, ◌==◌,
}
use qoot.Sh.Words.{is_blank, skip_blanks, until, split_at, next_word}
use qoot.Str.{peek}

-- A byte that a bare word may hold.
abbrev pub IsBare : ℕ → Type 0
IsBare c = (c ≢ 0) × (is_blank c ≡ false)

-- How a word may stand in a line: bare, if it is not empty and begins with no quote, or between
-- quotes of a kind that it does not hold.
pub data Spells (word : Bytes) : Bytes → Type 0 where
  bare :
      All IsBare word
      → (peek word ≢ 0)
      → (peek word ≢ b'"')
      → (peek word ≢ b'\'')
      → Spells word word
  quoted :
      (q : ℕ) (text : Bytes)
      → (q ≡ b'"') ⊎ (q ≡ b'\'')
      → All (λ c. c ≢ q) word
      → text ≡ q ∷ (word ++ q ∷ [])
      → Spells word text

-- A line of words, each behind blanks, with a blank between two of them.
pub data Line : List Bytes → Bytes → Type 0 where
  last : (blanks : Bytes) → All (λ c. is_blank c ≡ true) blanks → Line [] blanks
  final :
      (blanks word text : Bytes) (whole : Bytes)
      → All (λ c. is_blank c ≡ true) blanks
      → Spells word text
      → whole ≡ blanks ++ text
      → Line (word ∷ []) whole
  more :
      {words : List Bytes} {line : Bytes} (blanks word text : Bytes) (gap : ℕ) (whole : Bytes)
      → All (λ c. is_blank c ≡ true) blanks
      → Spells word text
      → is_blank gap ≡ true
      → Line words line
      → whole ≡ blanks ++ (text ++ gap ∷ line)
      → Line (word ∷ words) whole

until_stops :
    (test : ℕ → Bool) (word rest : Bytes) (c : ℕ)
    → All (λ d. test d ≡ false) word
    → test c ≡ true
    → until test (word ++ c ∷ rest) ≡ word
unfolding until
until_stops test [] rest c h stop = rw stop refl
until_stops test (d ∷ word) rest c h stop =
    rw h.0 (ap (◌∷◌ d) (until_stops test word rest c h.1 stop))

until_whole :
    (test : ℕ → Bool) (word : Bytes) → All (λ d. test d ≡ false) word → until test word ≡ word
unfolding until
until_whole test [] h = refl
until_whole test (d ∷ word) h = rw h.0 (ap (◌∷◌ d) (until_whole test word h.1))

drop_past : (word rest : Bytes) (c : ℕ) → drop (suc (length word)) (word ++ c ∷ rest) ≡ rest
drop_past [] rest c = refl
drop_past (d ∷ word) rest c = drop_past word rest c

drop_all : (word : Bytes) → drop (suc (length word)) word ≡ []
drop_all [] = refl
drop_all (d ∷ word) = drop_all word

split_at_stop :
    (test : ℕ → Bool) (word rest : Bytes) (c : ℕ)
    → All (λ d. test d ≡ false) word
    → test c ≡ true
    → split_at test (word ++ c ∷ rest) ≡ (word, rest)
unfolding split_at
split_at_stop test word rest c h stop =
    rw (until_stops test word rest c h stop) (rw (drop_past word rest c) refl)

split_at_whole :
    (test : ℕ → Bool) (word : Bytes)
    → All (λ d. test d ≡ false) word
    → split_at test word ≡ (word, [])
unfolding split_at
split_at_whole test word h = rw (until_whole test word h) (rw (drop_all word) refl)

not_this : (q : ℕ) (word : Bytes) → All (λ c. c ≢ q) word → All (λ c. (c == q) ≡ false) word
not_this q word h = All-imply word (λ c ne. ne→== c q ne) h

next_word_quote :
    (q : ℕ) (p : Bytes) → (q ≡ b'"') ⊎ (q ≡ b'\'') → next_word (q ∷ p) ≡ split_at (λ c. c == q) p
unfolding next_word
next_word_quote q p (inl double) = rw double refl
next_word_quote q p (inr single) = rw single refl

next_word_bare : (p : Bytes) → peek p ≢ b'"' → peek p ≢ b'\'' → next_word p ≡ split_at is_blank p
unfolding next_word
next_word_bare p d s = rw (ne→== (peek p) b'"' d, ne→== (peek p) b'\'' s) refl

next_word_quoted :
    (q : ℕ) (word rest : Bytes)
    → (q ≡ b'"') ⊎ (q ≡ b'\'')
    → All (λ c. c ≢ q) word
    → next_word (q ∷ (word ++ q ∷ rest)) ≡ (word, rest)
next_word_quoted q word rest kind h =
    next_word_quote q (word ++ q ∷ rest) kind
    ∙ split_at_stop (λ c. c == q) word rest q (not_this q word h) (eq→== q q refl)

no_blank : (word : Bytes) → All IsBare word → All (λ c. is_blank c ≡ false) word
no_blank word h = All-imply word (λ c b. b.1) h

-- The next word is the one that is spelled; what is left goes on behind blanks.
pub next_word-more :
    (word text line : Bytes) (gap : ℕ)
    → Spells word text
    → is_blank gap ≡ true
    → (after : Bytes) × (next_word (text ++ gap ∷ line) ≡ (word, after))
      × (skip_blanks after ≡ skip_blanks line)
unfolding skip_blanks
next_word-more [] _ line gap (Spells.bare h p d s) blank = absurd (p refl)
next_word-more (c ∷ word) _ line gap (Spells.bare h p d s) blank = (
  line,
  next_word_bare (c ∷ word ++ gap ∷ line) d s
      ∙ split_at_stop is_blank (c ∷ word) line gap (no_blank (c ∷ word) h) blank,
  refl,
)
next_word-more word text line gap (Spells.quoted q _ kind h e) blank = (
  gap ∷ line,
  ap (λ (t : Bytes). next_word (t ++ gap ∷ line)) e
      ∙ ap (λ (t : Bytes). next_word (q ∷ t)) (append_assoc word (q ∷ []) (gap ∷ line))
      ∙ next_word_quoted q word (gap ∷ line) kind h,
  rw blank refl,
)

pub next_word-final : (word text : Bytes) → Spells word text → next_word text ≡ (word, [])
next_word-final word _ (Spells.bare h p d s) =
    next_word_bare word d s ∙ split_at_whole is_blank word (no_blank word h)
next_word-final word text (Spells.quoted q _ kind h e) =
    ap next_word e ∙ next_word_quoted q word [] kind h

quote_starts : (q : ℕ) → (q ≡ b'"') ⊎ (q ≡ b'\'') → (q ≢ 0) × (is_blank q ≡ false)
unfolding is_blank
quote_starts q (inl double) = (omega arith, ground arith)
quote_starts q (inr single) = (omega arith, ground arith)

-- The first byte of a spelling.
pub spelling_starts :
    (word text rest : Bytes)
    → Spells word text
    → (peek (text ++ rest) ≢ 0) × (is_blank (peek (text ++ rest)) ≡ false)
spelling_starts [] _ rest (Spells.bare h p d s) = absurd (p refl)
spelling_starts (c ∷ word) _ rest (Spells.bare h p d s) = (p, h.0.1)
spelling_starts word text rest (Spells.quoted q _ kind h e) = rw e (quote_starts q kind)
