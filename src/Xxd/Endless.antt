-- ===== src/Xxd/Endless.antt =====
-- tools/xxd.c: a line that is never done with.
use Prim.Native.Nat.{bit_or}
use qoot.Str.{cstr}
use qoot.Str.Digits.{hex_digits}
use qoot.Io.{Reader, Delivers}
use qoot.Io.Lines.{read_lines-next}
use qoot.Str.Search.{Lacks}
use qoot.Base.{
  ◌<◌, leb, All-imply, length, length-append, map, All, All-append, not, ◌&&◌, ne→==, holds_below,
  holds_below_sound, get_or, ◌/◌, ◌+◌, ◌*◌, ◌%◌, ◌^◌, ◌∙◌, ℕ, zero, suc, ◌≡◌, ◌≢◌, refl, ap, ◌⊎◌,
  inl, inr, Bool, true, false, [], ◌∷◌, ◌++◌, none, Bytes, arith, Bool-cases, ◌==◌, if◌then◌else◌,
}
use qoot.Str.Parse.{hex_value}
use qoot.Xxd.{
  nibbles, hex_bytes, written, dump_row, reverse_line, xxd_reverse, hex_columns, offset_digits,
  hex_digit, shown_byte, behind_colon,
}

-- A byte that is neither blank nor a hexadecimal digit.
abbrev pub IsOther : ℕ → Type 0
IsOther c = (c ≢ b' ') × ((hex_value c).0 ≡ false)

-- One of the bytes is such a byte.
abbrev pub HasOther : Bytes → Type 0
HasOther [] = ⊥
HasOther (c ∷ p) = IsOther c ⊎ HasOther p

nibbles-HasOther : (n byte : ℕ) (p : Bytes) → HasOther p → HasOther (nibbles n byte p).1
unfolding nibbles
nibbles-HasOther zero byte p h = h
nibbles-HasOther (suc n) byte [] h = h
nibbles-HasOther (suc n) byte (c ∷ p) h =
    digit (Bool-cases (hex_value c).0) (nibbles-HasOther n _ p)
  where
    digit :
        ((hex_value c).0 ≡ true) ⊎ ((hex_value c).0 ≡ false)
        → (HasOther p → HasOther (nibbles n (bit_or (byte * 2 ^ 4 % 256) (hex_value c).1) p).1)
        → HasOther (nibbles (suc n) byte (c ∷ p)).1
    digit (inr e) ih = rw e h
    digit (inl e) ih = rw e (ih (later h))
      where
        later : HasOther (c ∷ p) → HasOther p
        later (inl other) = absurd (ground arith)
        later (inr h) = h

pub hex_bytes_endless : (f : ℕ) (p : Bytes) → HasOther p → hex_bytes f p ≡ none
unfolding hex_bytes
hex_bytes_endless f [] h = absurd h
hex_bytes_endless zero (c ∷ p) h = refl
hex_bytes_endless (suc f) (c ∷ p) h =
    blank (Bool-cases (c == b' ')) h (hex_bytes_endless f p)
      (hex_bytes_endless f (nibbles 2 0 (c ∷ p)).1 (nibbles-HasOther 2 0 (c ∷ p) h))
  where
    blank :
        ((c == b' ') ≡ true) ⊎ ((c == b' ') ≡ false)
        → HasOther (c ∷ p)
        → (HasOther p → hex_bytes f p ≡ none)
        → hex_bytes f (nibbles 2 0 (c ∷ p)).1 ≡ none
        → hex_bytes (suc f) (c ∷ p) ≡ none
    blank (inl e) (inl other) ih stays = absurd (ground arith)
    blank (inl e) (inr h) ih stays = rw e (ih h)
    blank (inr e) h ih stays = rw e (ap (written (nibbles 2 0 (c ∷ p)).0) stays)

-- A byte that the dump shows as one.
abbrev pub IsShown : ℕ → Type 0
IsShown b = IsOther (shown_byte b)

HasOther-append : (s p : Bytes) → HasOther p → HasOther (s ++ p)
HasOther-append [] p h = h
HasOther-append (c ∷ s) p h = inr (HasOther-append s p h)

HasOther-map :
    (front : Bytes) (b : ℕ) (back : Bytes)
    → IsShown b
    → HasOther (map shown_byte (front ++ b ∷ back))
HasOther-map [] b back h = inl h
HasOther-map (x ∷ front) b back h = inr (HasOther-map front b back h)

-- Bytes that neither end a string nor an offset.
abbrev pub IsPlain : ℕ → Type 0
IsPlain c = (c ≢ b':') × (31 < c)

pub hex_digit-IsPlain : (v : ℕ) → IsPlain (hex_digit v)
unfolding holds_below
hex_digit-IsPlain v = ((λ e. ground arith), ground arith)
  where
    plain : (not (hex_digit v == b':') && leb 32 (hex_digit v)) ≡ true
    plain =
        holds_below_sound
          (λ d.
            not (get_or (hex_digits false) d 0 == b':') && leb 32 (get_or (hex_digits false) d 0))
          16 (v % 16) (omega arith) refl

pub blank-IsPlain : IsPlain b' '
blank-IsPlain = ((λ e. ground arith), omega arith)

pub offset_digits-IsPlain : (n offset : ℕ) → All IsPlain (offset_digits n offset)
unfolding offset_digits
offset_digits-IsPlain zero offset = tt
offset_digits-IsPlain (suc n) offset =
    All-append IsPlain (offset_digits n (offset / 16)) (hex_digit offset ∷ [])
      (offset_digits-IsPlain n (offset / 16)) (hex_digit-IsPlain offset, tt)

abbrev pub Filled : Bytes → Type 0
Filled = All (λ c. 31 < c)

gap-Filled : (test : Bool) (s : Bytes) → Filled s → Filled ((if test then 32 ∷ [] else []) ++ s)
gap-Filled true s h = (omega arith, h)
gap-Filled false s h = h

pub hex_columns-Filled : (half i n : ℕ) (buf : Bytes) → Filled (hex_columns half i n buf)
unfolding hex_columns
hex_columns-Filled half i zero buf = tt
hex_columns-Filled half i (suc n) [] =
    let blank = blank-IsPlain.1 in
    let later = hex_columns-Filled half (suc i) n [] in
    (blank, (blank, (blank, gap-Filled (i + 1 == half) (hex_columns half (suc i) n []) later)))
hex_columns-Filled half i (suc n) (b ∷ buf) =
    let blank = blank-IsPlain.1 in
    let later = hex_columns-Filled half (suc i) n buf in
    let gapped = gap-Filled (i + 1 == half) (hex_columns half (suc i) n buf) later in
    ((hex_digit-IsPlain (b / 16)).1, ((hex_digit-IsPlain b).1, (blank, gapped)))

shown-Filled : (buf : Bytes) → Filled (map shown_byte buf)
unfolding shown_byte
shown-Filled [] = tt
shown-Filled (b ∷ buf) = (ground arith, shown-Filled buf)

pub cstr-Filled : (s : Bytes) → Filled s → cstr s ≡ s
unfolding cstr
cstr-Filled [] h = refl
cstr-Filled (c ∷ s) h = rw (ne→== c 0 (omega (arith, h.0))) (ap (λ t. c ∷ t) (cstr-Filled s h.1))

pub behind_colon-offset :
    (s p : Bytes) → All IsPlain s → behind_colon (cstr (s ++ b':' ∷ p)) ≡ cstr p
unfolding behind_colon cstr
behind_colon-offset [] p h = refl
behind_colon-offset (c ∷ s) p h =
    rw (ne→== c 0 (omega (arith, h.0.1)), ne→== c b':' h.0.0) (behind_colon-offset s p h.1)

dump_row-Filled : (cols offset : ℕ) (buf : Bytes) → Filled (dump_row cols offset buf)
unfolding dump_row
dump_row-Filled cols offset buf =
    let columns = hex_columns (cols / 2) 0 cols buf in
    let digits =
      All-imply {P = IsPlain} {Q = λ c. 31 < c} (offset_digits 8 offset) (λ c h. h.1)
        (offset_digits-IsPlain 8 offset) in
    let behind =
      All-append (λ c. 31 < c) columns (32 ∷ map shown_byte buf)
        (hex_columns-Filled (cols / 2) 0 cols buf) (omega arith, shown-Filled buf) in
    All-append (λ c. 31 < c) (offset_digits 8 offset)
      (b':' ∷ 32 ∷ (columns ++ 32 ∷ map shown_byte buf)) digits (omega arith, (omega arith, behind))

reverse_line_endless :
    (cols offset : ℕ) (front : Bytes) (b : ℕ) (back : Bytes) (f : ℕ)
    → IsShown b
    → reverse_line f (dump_row cols offset (front ++ b ∷ back)) ≡ none
unfolding reverse_line dump_row
reverse_line_endless cols offset front b back f other =
    let shown = map shown_byte (front ++ b ∷ back) in
    let columns = hex_columns (cols / 2) 0 cols (front ++ b ∷ back) in
    let tail = 32 ∷ (columns ++ 32 ∷ shown) in
    let filled : Filled (columns ++ 32 ∷ shown) =
      All-append (λ c. 31 < c) columns (32 ∷ shown)
        (hex_columns-Filled (cols / 2) 0 cols (front ++ b ∷ back))
        (omega arith, shown-Filled (front ++ b ∷ back)) in
    let text : behind_colon (cstr (offset_digits 8 offset ++ b':' ∷ tail)) ≡ tail =
      behind_colon-offset (offset_digits 8 offset) tail (offset_digits-IsPlain 8 offset)
      ∙ cstr-Filled tail (omega arith, filled) in
    ap (hex_bytes f) text
    ∙ hex_bytes_endless f tail
        (inr (HasOther-append columns (32 ∷ shown) (inr (HasOther-map front b back other))))

some_row : (cols offset : ℕ) (buf : Bytes) → 0 < length (dump_row cols offset buf)
unfolding dump_row
some_row cols offset buf = omega (arith, length-append (offset_digits 8 offset) _)

-- Of a file that begins with a row of a dump of fewer than 511 bytes, and a newline, where one of the
-- row's bytes is shown neither as a blank nor as a hexadecimal digit, xxd -r is never done: its loop
-- over the row goes on, whatever the number of rounds.
pub xxd_reverse_endless :
    (k : Reader) (d : Delivers k) (cols offset : ℕ) (front : Bytes) (b : ℕ) (back rest : Bytes)
    (f n : ℕ) (fd : k.State)
    → IsShown b
    → length (dump_row cols offset (front ++ b ∷ back)) < 511
    → d.content fd ≡ dump_row cols offset (front ++ b ∷ back) ++ 10 ∷ rest
    → xxd_reverse k f (suc n) fd ≡ none
unfolding xxd_reverse
xxd_reverse_endless k d cols offset front b back rest f n fd other short text =
    let buf = front ++ b ∷ back in
    let row = dump_row cols offset buf in
    let no_newline : Lacks 10 row =
      All-imply {P = λ c. 31 < c} {Q = λ c. c ≢ 10} row (λ c h e. omega arith)
        (dump_row-Filled cols offset buf) in
    let some_bytes : row ≢ [] = λ e. omega (arith, ap length e, some_row cols offset buf) in
    let (t, lines) =
      read_lines-next k d row rest 512 n fd text (some_bytes, no_newline, omega arith) in
    rw (lines, reverse_line_endless cols offset front b back f other) refl
