-- ===== src/Streams/Words/Split.antt =====
-- tools/wc.c: the words of a text.
use qoot.Base.{
  ℕ, suc, ◌+◌, ◌^◌, ◌<◌, ◌≤◌, ◌≡◌, refl, ap, ◌∙◌, inl, inr, Bool, true, false, not, ◌||◌, List, [],
  ◌∷◌, Bytes, length, arith, ◌==◌, Bool-cases, if◌then◌else◌,
}
use qoot.Io.{Reader, Delivers}
use qoot.Streams.{read_bytes-foldl, foldl}
use qoot.Streams.Words.{is_separator, Counts, count_byte, count_stream, nothing}

-- A byte in front of a word, or as one of its own.
abbrev pub prepend : ℕ → List Bytes → List Bytes
prepend c [] = (c ∷ []) ∷ []
prepend c (word ∷ words) = (c ∷ word) ∷ words

-- The words of a text, from its end: a byte that is no blank belongs to the word that starts behind it.
unfoldable pub words_of : Bytes → List Bytes
words_of [] = []
words_of (c ∷ []) = if is_separator c then [] else (c ∷ []) ∷ []
words_of (c ∷ x ∷ t) =
    let later = words_of (x ∷ t) in
    if is_separator c then later else if is_separator x then (c ∷ []) ∷ later else prepend c later

abbrev pub count : ℕ → Bytes → ℕ
count c [] = 0
count c (x ∷ t) = if x == c then suc (count c t) else count c t

-- The words that start, where `in_word` says whether one is under way.
starts : Bool → Bytes → ℕ
starts in_word [] = 0
starts in_word (c ∷ t) =
    if is_separator c
    then starts false t
    else if in_word
    then starts true t
    else suc (starts true t)

length-prepend :
    (c : ℕ) (words : List Bytes) → 0 < length words → length (prepend c words) ≡ length words
length-prepend c [] h = absurd (omega arith)
length-prepend c (word ∷ words) h = refl

starts-words_of : (t : Bytes) → length (words_of t) ≡ starts false t
unfolding words_of starts
starts-words_of [] = refl
starts-words_of (c ∷ []) = ground arith
starts-words_of (c ∷ x ∷ t) = elim (Bool-cases (is_separator c)) [
  | inl e ↦ rw e (starts-words_of (x ∷ t))
  | inr e ↦ rw e (elim (Bool-cases (is_separator x)) [
    | inl e' ↦ rw e' (ap suc (starts-words_of (x ∷ t) ∙ rw e'))
    | inr e' ↦
        let ih : length (words_of (x ∷ t)) ≡ suc (starts true t) =
          starts-words_of (x ∷ t) ∙ rw e' in
        rw e' (length-prepend c (words_of (x ∷ t)) (omega arith) ∙ ih)
  ])
]

count_bound : (c : ℕ) (t : Bytes) → count c t ≤ length t
count_bound c [] = omega arith
count_bound c (x ∷ t) = ground (arith, count_bound c t)

starts_bound : (b : Bool) (t : Bytes) → starts b t ≤ length t
unfolding starts
starts_bound b [] = omega arith
starts_bound b (c ∷ t) = ground (arith, starts_bound true t, starts_bound false t)

counted :
    (l w n : ℕ) (b : Bool) (t : Bytes)
    → l + length t < 2 ^ 64
    → w + length t < 2 ^ 64
    → n + length t < 2 ^ 64
    → (foldl count_byte (record { lines = l; words = w; bytes = n }, b) t).0
      ≡ record { lines = l + count 10 t; words = w + starts b t; bytes = n + length t }
unfolding count_byte starts
counted l w n b [] hl hw hn = ground arith
counted l w n b (c ∷ t) hl hw hn =
    let l' : ℕ = if c == 10 then l + 1 else l in
    let w' : ℕ = if is_separator c || b then w else w + 1 in
    let step : count_byte (record { lines = l; words = w; bytes = n }, b) c
        ≡ (record { lines = l'; words = w'; bytes = n + 1 }, not (is_separator c)) =
      ground arith in
    ap (λ (q : Counts × Bool). (foldl count_byte q t).0) step
    ∙ counted l' w' (n + 1) (not (is_separator c)) t (ground arith) (ground arith) (omega arith)
    ∙ added l w n b c t
  where
    added :
        (l w n : ℕ) (b : Bool) (c : ℕ) (t : Bytes)
        → ◌≡◌ {A = Counts}
            (record {
              lines = (if c == 10 then l + 1 else l) + count 10 t;
              words = (if is_separator c || b then w else w + 1) + starts (not (is_separator c)) t;
              bytes = n + 1 + length t;
            })
            (record {
              lines = l + count 10 (c ∷ t);
              words = w + starts b (c ∷ t);
              bytes = n + length (c ∷ t);
            })
    added l w n b c t = ground arith

module _ (k : Reader) (d : Delivers k) where
  -- Of a text of fewer than 2 ^ 64 bytes, in whatever pieces it comes, count_stream counts the
  -- newlines, the words that the blanks part, and the bytes.
  pub count_stream-words_of :
      (f : ℕ) (fd : k.State)
      → length (d.content fd) < f
      → length (d.content fd) < 2 ^ 64
      → count_stream k f fd ≡ record {
        lines = count 10 (d.content fd);
        words = length (words_of (d.content fd));
        bytes = length (d.content fd);
      }
  unfolding count_stream
  count_stream-words_of f fd enough fits =
      let whole = read_bytes-foldl k d count_byte 4096 f fd (nothing, false) (omega arith) enough in
      let all = counted 0 0 0 false (d.content fd) (omega arith) (omega arith) (omega arith) in
      ap (λ (q : Counts × Bool). q.0) whole
      ∙ all
      ∙ rw (starts-words_of (d.content fd)) (ground arith)
