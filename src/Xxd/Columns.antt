-- ===== src/Xxd/Columns.antt =====
-- tools/xxd.c: the columns of a dump, read back.
use Prim.Native.Nat.{bit_or}
use qoot.Str.Digits.{hex_digits}
use qoot.Io.{Reader, Delivers}
use qoot.Io.Lines.{Fits, unlines, read_lines-unlines}
use qoot.Base.{
  All-append, ◌<◌, List, All-imply, map, length-append, ◌≢◌, ap, holds_below, holds_below_sound,
  not, get_or, ℕ, zero, suc, ◌+◌, ◌*◌, ◌/◌, ◌%◌, ◌^◌, ◌<◌, ◌≤◌, ◌≡◌, refl, ap, ◌∙◌, Bool, true,
  false, [], ◌∷◌, ◌++◌, some, Bytes, codes, length, All, arith, ◌==◌, if◌then◌else◌,
}
use qoot.Base.Bits.{bit_or_shift, bit_or_comm, bit_or-zero}
use qoot.Str.{cstr}
use qoot.Str.RoundTrip.{hex_value-digit}
use qoot.Xxd.Endless.{
  IsPlain, hex_columns-Filled, cstr-Filled, behind_colon-offset, offset_digits-IsPlain,
  blank-IsPlain,
}
use qoot.Xxd.{
  nibbles, hex_bytes, written, hex_columns, offset_digits, hex_digit, reverse_line, xxd_reverse,
  lines_bytes, behind_colon,
}

nibbles-byte :
    (b : ℕ) (p : Bytes) → b < 256 → nibbles 2 0 (hex_digit (b / 16) ∷ hex_digit b ∷ p) ≡ (b, p)
unfolding nibbles
nibbles-byte b p small =
    let high = hex_value-digit false (b / 16 % 16) (omega arith) in
    let low = hex_value-digit false (b % 16) (omega arith) in
    let d = b % 16 in
    let v = b / 16 % 16 in
    let zero : bit_or 0 v ≡ v = bit_or_comm 0 v ∙ bit_or-zero v in
    let shifted : bit_or 0 v * 16 % 256 ≡ v * 2 ^ 4 = omega (arith, zero) in
    let whole : v * 2 ^ 4 + d ≡ b = omega arith in
    let byte : bit_or (bit_or 0 v * 16 % 256) d ≡ b =
      ap (λ t. bit_or t d) shifted ∙ bit_or_shift 4 v d (omega arith) ∙ whole in
    rw (high, low) (ap (λ x. (x, p)) byte)

not_blank : (v : ℕ) → (hex_digit v == b' ') ≡ false
unfolding holds_below
not_blank v = ground (
  arith,
  holds_below_sound (λ d. not (get_or (hex_digits false) d 0 == b' ')) 16 (v % 16) (omega arith)
      refl,
)

-- What a text is read as, with as many rounds as it has bytes, or more.
abbrev Reads : Bytes → Bytes → Type 0
Reads p out = (f : ℕ) → length p ≤ f → hex_bytes f p ≡ some out

nothing-Reads : Reads [] []
unfolding hex_bytes
nothing-Reads zero h = refl
nothing-Reads (suc f) h = refl

blank-Reads : (p out : Bytes) → Reads p out → Reads (32 ∷ p) out
unfolding hex_bytes
blank-Reads p out rest zero h = absurd (omega arith)
blank-Reads p out rest (suc f) h = rest f (omega arith)

digits-Reads :
    (b : ℕ) (p out : Bytes)
    → b < 256
    → Reads p out
    → Reads (hex_digit (b / 16) ∷ hex_digit b ∷ p) (b ∷ out)
unfolding hex_bytes
digits-Reads b p out small rest zero h = absurd (omega arith)
digits-Reads b p out small rest (suc f) h = rw (not_blank (b / 16)) (
    ap (λ (r : ℕ × Bytes). written r.0 (hex_bytes f r.1)) (nibbles-byte b p small)
    ∙ ap (written b) (rest f (omega arith)))

gap-Reads :
    (test : Bool) (p out : Bytes) → Reads p out → Reads ((if test then 32 ∷ [] else []) ++ p) out
gap-Reads true p out rest = blank-Reads p out rest
gap-Reads false p out rest = rest

columns-Reads :
    (half i n : ℕ) (buf : Bytes)
    → All (λ b. b < 256) buf
    → length buf ≤ n
    → Reads (hex_columns half i n buf) buf
unfolding hex_columns
columns-Reads half i zero [] small fits = nothing-Reads
columns-Reads half i zero (b ∷ buf) small fits = absurd (omega arith)
columns-Reads half i (suc n) [] small fits =
    let later = hex_columns half (suc i) n [] in
    let rest =
      gap-Reads (i + 1 == half) later [] (columns-Reads half (suc i) n [] tt (omega arith)) in
    let gapped = (if i + 1 == half then 32 ∷ [] else []) ++ later in
    blank-Reads (32 ∷ 32 ∷ gapped) [] (blank-Reads (32 ∷ gapped) [] (blank-Reads gapped [] rest))
columns-Reads half i (suc n) (b ∷ buf) small fits =
    let later = hex_columns half (suc i) n buf in
    let rest =
      gap-Reads (i + 1 == half) later buf
        (columns-Reads half (suc i) n buf small.1 (omega arith)) in
    let gapped = (if i + 1 == half then 32 ∷ [] else []) ++ later in
    digits-Reads b (32 ∷ gapped) buf small.0 (blank-Reads gapped buf rest)

-- The offset and the columns of a row, without the shown bytes.
abbrev pub hex_line : ℕ → ℕ × Bytes → Bytes
hex_line cols (offset, buf) =
    offset_digits 8 offset ++ (codes ": " ++ hex_columns (cols / 2) 0 cols buf)

reverse_line-hex_columns :
    (cols offset : ℕ) (buf : Bytes) (f : ℕ)
    → All (λ b. b < 256) buf
    → length buf ≤ cols
    → length (hex_line cols (offset, buf)) ≤ f
    → reverse_line f (hex_line cols (offset, buf)) ≡ some buf
unfolding reverse_line
reverse_line-hex_columns cols offset buf f small fits fuel =
    let columns = hex_columns (cols / 2) 0 cols buf in
    let text : behind_colon (cstr (offset_digits 8 offset ++ b':' ∷ 32 ∷ columns)) ≡ 32 ∷ columns =
      behind_colon-offset (offset_digits 8 offset) (32 ∷ columns) (offset_digits-IsPlain 8 offset)
      ∙ cstr-Filled (32 ∷ columns) (blank-IsPlain.1, hex_columns-Filled (cols / 2) 0 cols buf) in
    let enough : length (32 ∷ columns) ≤ f =
      omega (arith, length-append (offset_digits 8 offset) (b':' ∷ 32 ∷ columns)) in
    ap (hex_bytes f) text
    ∙ blank-Reads columns buf (columns-Reads (cols / 2) 0 cols buf small fits) f enough

-- A row that fits the buffer of xxd_reverse.
abbrev pub IsRow : ℕ → ℕ × Bytes → Type 0
IsRow cols (offset, buf) =
    All (λ b. b < 256) buf × (length buf ≤ cols) × (length (hex_line cols (offset, buf)) < 511)

abbrev pub bytes_of : List (ℕ × Bytes) → Bytes
bytes_of [] = []
bytes_of ((offset, buf) ∷ rows) = buf ++ bytes_of rows

lines_bytes-rows :
    (cols : ℕ) (rows : List (ℕ × Bytes)) (f : ℕ)
    → All (IsRow cols) rows
    → 511 ≤ f
    → lines_bytes f (map (hex_line cols) rows) ≡ some (bytes_of rows)
lines_bytes-rows cols [] f ok enough = refl
lines_bytes-rows cols ((offset, buf) ∷ rows) f ok enough =
    rw
      (
        reverse_line-hex_columns cols offset buf f ok.0.0 ok.0.1 (omega (arith, ok.0.2)),
        lines_bytes-rows cols rows f ok.1 enough,
      )
      refl

hex_line-Fits : (cols : ℕ) (row : ℕ × Bytes) → IsRow cols row → Fits 512 (hex_line cols row)
hex_line-Fits cols (offset, buf) ok =
    let columns = hex_columns (cols / 2) 0 cols buf in
    let digits =
      All-imply {P = IsPlain} {Q = λ c. c ≢ 10} (offset_digits 8 offset)
        (λ c h e. omega (arith, h.1)) (offset_digits-IsPlain 8 offset) in
    let free =
      All-imply {P = λ c. 31 < c} {Q = λ c. c ≢ 10} columns (λ c h e. omega arith)
        (hex_columns-Filled (cols / 2) 0 cols buf) in
    (
      λ e. omega (arith, ap length e, length-append (offset_digits 8 offset) (b':' ∷ 32 ∷ columns)),
      All-append (λ c. c ≢ 10) (offset_digits 8 offset) (b':' ∷ 32 ∷ columns) digits
          (omega arith, (omega arith, free)),
      omega (arith, ok.2),
    )

rows_fit :
    (cols : ℕ) (rows : List (ℕ × Bytes))
    → All (IsRow cols) rows
    → All (Fits 512) (map (hex_line cols) rows)
rows_fit cols [] ok = tt
rows_fit cols (row ∷ rows) ok = (hex_line-Fits cols row ok.0, rows_fit cols rows ok.1)

-- Rows of a dump without the shown bytes, each of fewer than 511 bytes and with its newline, are read
-- back as the rows' bytes, in no more than 511 rounds for each of them.
pub xxd_reverse-rows :
    (k : Reader) (d : Delivers k) (cols : ℕ) (rows : List (ℕ × Bytes)) (f n : ℕ) (fd : k.State)
    → All (IsRow cols) rows
    → d.content fd ≡ unlines (map (hex_line cols) rows)
    → length (map (hex_line cols) rows) < n
    → 511 ≤ f
    → xxd_reverse k f n fd ≡ some (bytes_of rows)
unfolding xxd_reverse
xxd_reverse-rows k d cols rows f n fd ok text fuel enough =
    ap (lines_bytes f) (
      read_lines-unlines k d (map (hex_line cols) rows) 512 n fd text (rows_fit cols rows ok)
        (omega arith) fuel)
    ∙ lines_bytes-rows cols rows f ok enough
