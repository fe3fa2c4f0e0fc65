-- ===== src/Deflate/Gzip.antt =====
-- include/deflate.h: `gzip_parse_header`. The file is the list of its bytes.
use Prim.Native.Nat.{bit_and, bit_or}
use qoot.Base.{
  ℕ, ◌+◌, ◌-◌, ◌*◌, ◌%◌, ◌^◌, ◌<◌, ◌≤◌, ◌≡◌, ap, ◌⊎◌, inl, inr, Bool, ◌||◌, not, [], ◌∷◌, Option,
  none, some, Bytes, length, get_or, drop, ltb, leb, ◌==◌, arith, Bool-cases, Option-cases,
  if◌then◌else◌,
}

pub record Header : Type 0 where
  pub data_offset : ℕ
  pub data_len : ℕ
  pub orig_crc : ℕ
  pub orig_size : ℕ

-- How far `while (pos < len && data[pos] != 0) pos++; pos++` goes.
unfoldable pub text_end : Bytes → ℕ
text_end [] = 1
text_end (c ∷ s) = let more = text_end s + 1 in if c == 0 then 1 else more

-- `flags & mask`
abbrev has_flag : Bytes → ℕ → Bool
has_flag file mask = not (bit_and (get_or file 3 0) mask == 0)

-- FEXTRA; `none` is the result -1.
unfoldable pub skip_extra : Bytes → Option ℕ
skip_extra file =
    if has_flag file 4
    then (if ltb (length file) 12
        then none
        else some (12 + bit_or (get_or file 10 0) (get_or file 11 0 * 2 ^ 8)))
    else some 10

-- FNAME and FCOMMENT.
unfoldable pub skip_text : Bytes → ℕ → ℕ → ℕ
unfolding text_end
skip_text file mask pos = if has_flag file mask then pos + text_end (drop pos file) else pos

-- FHCRC, after the rest.
unfoldable pub data_start : Bytes → Option ℕ
unfolding skip_extra skip_text
data_start file = elim (skip_extra file) [
  | none ↦ none
  | some pos ↦
      let pos' = skip_text file 16 (skip_text file 8 pos) in
      some (if has_flag file 2 then pos' + 2 else pos')
]

-- Four bytes from place i on, the lowest first.
unfoldable pub word_at : Bytes → ℕ → ℕ
word_at file i =
    bit_or
      (bit_or (bit_or (get_or file i 0) (get_or file (i + 1) 0 * 2 ^ 8))
        (get_or file (i + 2) 0 * 2 ^ 16))
      (get_or file (i + 3) 0 * 2 ^ 24)

-- What is stored where the data begin at `pos`; `len - pos - 8` is an `unsigned long`.
unfoldable pub header_at : Bytes → ℕ → Option Header
unfolding word_at
header_at file pos =
    let len = length file in
    if leb len pos
    then none
    else some record {
      data_offset = pos;
      data_len = (2 ^ 64 + len - pos - 8) % 2 ^ 64;
      orig_crc = word_at file (len - 8);
      orig_size = word_at file (len - 4);
    }

unfoldable pub gzip_parse_header : Bytes → Option Header
gzip_parse_header file =
    let len = length file in
    if ltb len 18
    then none
    else if not (get_or file 0 0 == 0x1f) || not (get_or file 1 0 == 0x8b)
    then none
    else if not (get_or file 2 0 == 8)
    then none
    else elim (data_start file) [ none ↦ none | some pos ↦ header_at file pos ]

-- What an accepted header says of the length of the data: the bytes up to the trailer if there are
-- any, and else a number that has wrapped around, at least 2^64 - 8.
abbrev DataEnds : ℕ → Header → Type 0
DataEnds len h =
    ((h.data_offset + 8 ≤ len) × (h.data_offset + h.data_len + 8 ≡ len))
    ⊎ ((len < h.data_offset + 8) × (2 ^ 64 ≤ h.data_len + 8))

abbrev pub IsDataLen : ℕ → Header → Type 0
IsDataLen len h = (h.data_offset < len) × DataEnds len h

abbrev get_some : Header → Option Header → Header
get_some h none = h
get_some h (some x) = x

header_at-IsDataLen :
    (file : Bytes) (pos : ℕ) {h : Header}
    → length file < 2 ^ 63
    → header_at file pos ≡ some h
    → IsDataLen (length file) h
unfolding header_at
header_at-IsDataLen file pos {h} small e = elim (Bool-cases (leb (length file) pos)) [
  | inl past ↦ absurd (ground arith)
  | inr before ↦
      let len = length file in
      let parts : record {
        data_offset = pos;
        data_len = (2 ^ 64 + len - pos - 8) % 2 ^ 64;
        orig_crc = word_at file (len - 8);
        orig_size = word_at file (len - 4);
      }
          ≡ h =
        ap (get_some h) (rw (before, if◌then◌else◌) at e) in
      let offset : pos ≡ h.data_offset = ap (λ h. h.data_offset) parts in
      let size : (2 ^ 64 + len - pos - 8) % 2 ^ 64 ≡ h.data_len = ap (λ h. h.data_len) parts in
      let ends = elim (Bool-cases (leb (pos + 8) len)) as (λ _. DataEnds len h) [
        | inl fits ↦ inl (ground arith, ground arith)
        | inr short ↦ inr (ground arith, ground arith)
      ] in
      (ground arith, ends)
]

-- An accepted header leaves data before the trailer, and its `data_len` is their length; or the
-- trailer begins before the end of the header, and `data_len` has wrapped to at least 2^64 - 8.
pub gzip_parse_header-IsDataLen :
    (file : Bytes) {h : Header}
    → length file < 2 ^ 63
    → gzip_parse_header file ≡ some h
    → IsDataLen (length file) h
unfolding gzip_parse_header
gzip_parse_header-IsDataLen file {h} small e = elim (Option-cases (data_start file)) [
  | inl missing ↦ absurd (ground arith)
  | inr (pos, found) ↦
      header_at-IsDataLen file pos {h = h} small (let e' = rw found at e in ground arith)
]
