-- ===== src/Ar/Header.antt =====
-- tools/ar.c: a header that is put together is read back.
use qoot.Base.{
  ℕ, zero, suc, ◌+◌, ◌-◌, ◌*◌, ◌%◌, ◌^◌, ◌<◌, ◌≤◌, ◌≡◌, ◌≢◌, refl, ap, ◌∙◌, true, List, [], ◌∷◌,
  ◌++◌, append_assoc, Bytes, length, length-append, take, drop, take_front, drop_front, drop-drop,
  get_or-drop, replicate, length-replicate, All, arith, ◌==◌, if◌then◌else◌,
}
use qoot.Ar.{name_part, ar_get_name, ar_parse_size, size_loop, has_magic}
use qoot.Io.Passwd.Laws.{cstr-IsCString}
use qoot.Str.{IsCString, cstr}
use qoot.Str.Digits.{ulong_to_str, decimal_digit}
use qoot.Str.Places.{length-to_text, loop-to_text, Reads}

-- A file in an archive.
pub record File : Type 0 where
  pub name : Bytes
  pub contents : Bytes

-- Blanks behind a text, up to the width of its field.
abbrev pub filled : ℕ → Bytes → Bytes
filled width text = text ++ replicate (width - length text) b' '

-- Time, owner, group and mode: 32 bytes that ar does not look at.
abbrev pub unread : Bytes
unread = replicate 32 b'0'

abbrev pub header_of : File → Bytes
header_of file =
    filled 16 (file.name ++ b'/' ∷ [])
    ++ (unread ++ (filled 10 (ulong_to_str (length file.contents)).0 ++ 96 ∷ 10 ∷ []))

-- The contents, and a newline where their number is odd.
abbrev pub body_of : File → Bytes
body_of file = file.contents ++ (if length file.contents % 2 == 0 then [] else 10 ∷ [])

abbrev pub archived : List File → Bytes
archived [] = []
archived (file ∷ files) = header_of file ++ (body_of file ++ archived files)

-- The name is a string that fits and has no slash or blank, and the contents are less than 10 GB.
abbrev pub Fits : File → Type 0
Fits file =
    (length file.name ≤ 15)
    × All (λ c. (c ≢ b'/') × (c ≢ b' ')) file.name
    × IsCString file.name
    × (length file.contents < 10 ^ 10)

length-filled :
    (width : ℕ) (text : Bytes) → length text ≤ width → length (filled width text) ≡ width
length-filled width text h = omega (
  arith,
  length-append text (replicate (width - length text) b' '),
  length-replicate {A = ℕ} (width - length text) b' ',
)

name_part_stops :
    (name rest : Bytes)
    → All (λ c. (c ≢ b'/') × (c ≢ b' ')) name
    → name_part (name ++ b'/' ∷ rest) ≡ name
unfolding name_part
name_part_stops [] rest free = refl
name_part_stops (c ∷ name) rest free = ground (arith, name_part_stops name rest free.1, free.0)

Reads-size : Reads size_loop decimal_digit 10 (2 ^ 64)
unfolding size_loop
Reads-size rest q d small fits =
    let place : (q * 10 + (b'0' + d - b'0')) % 2 ^ 64 ≡ q * 10 + d = omega arith in
    ground (arith, place)

blanks_stop : (n v : ℕ) → size_loop (replicate n b' ') v ≡ v
unfolding size_loop
blanks_stop zero v = refl
blanks_stop (suc n) v = refl

size_loop-digits :
    (n blanks : ℕ) → n < 2 ^ 64 → size_loop ((ulong_to_str n).0 ++ replicate blanks b' ') 0 ≡ n
unfolding ulong_to_str
size_loop-digits n blanks fits =
    loop-to_text size_loop decimal_digit 10 (2 ^ 64) (omega arith) Reads-size refl n
      (replicate blanks b' ') fits
    ∙ blanks_stop blanks n

-- The digits of a length, which fill their field at most.
abbrev digits : File → Bytes
digits file = (ulong_to_str (length file.contents)).0

length-digits : (file : File) → Fits file → length (digits file) ≤ 10
unfolding ulong_to_str
length-digits file fits =
    (length-to_text decimal_digit 10 (omega arith) 10 (length file.contents) (omega arith) fits.3).0

module _ (file : File) (fits : Fits file) where
  pub length-header_of : length (header_of file) ≡ 60
  length-header_of =
      let name =
        length-filled 16 (file.name ++ b'/' ∷ [])
          (omega (arith, length-append file.name (b'/' ∷ []))) in
      let size = length-filled 10 (digits file) (length-digits file fits) in
      let tail : Bytes = filled 10 (digits file) ++ 96 ∷ 10 ∷ [] in
      omega (
        arith,
        name,
        size,
        length-append (filled 16 (file.name ++ b'/' ∷ [])) (unread ++ tail),
        length-append unread tail,
        length-append (filled 10 (digits file)) (96 ∷ 10 ∷ []),
      )

  -- The header behind the name, the parts that are not read, and the size.
  behind_name : drop 16 (header_of file) ≡ unread ++ (filled 10 (digits file) ++ 96 ∷ 10 ∷ [])
  behind_name = drop_front 16 (filled 16 (file.name ++ b'/' ∷ [])) _ (
      length-filled 16 (file.name ++ b'/' ∷ [])
        (omega (arith, length-append file.name (b'/' ∷ []))))

  pub name-header_of : ar_get_name (header_of file) ≡ file.name
  unfolding ar_get_name
  name-header_of =
      ap (λ (t : Bytes). cstr (name_part t))
        (take_front 16 (filled 16 (file.name ++ b'/' ∷ [])) _ (
            length-filled 16 (file.name ++ b'/' ∷ [])
              (omega (arith, length-append file.name (b'/' ∷ []))))
          ∙ append_assoc file.name (b'/' ∷ []) _)
      ∙ ap cstr (name_part_stops file.name _ fits.1)
      ∙ cstr-IsCString file.name fits.2

  behind_unread : drop 48 (header_of file) ≡ filled 10 (digits file) ++ 96 ∷ 10 ∷ []
  behind_unread =
      drop-drop 16 32 (header_of file) ∙ ap (drop 32) behind_name ∙ drop_front 32 unread _ refl

  behind_size : drop 58 (header_of file) ≡ 96 ∷ 10 ∷ []
  behind_size =
      drop-drop 48 10 (header_of file)
      ∙ ap (drop 10) behind_unread
      ∙ drop_front 10 (filled 10 (digits file)) _
          (length-filled 10 (digits file) (length-digits file fits))

  pub size-header_of : ar_parse_size (header_of file) ≡ length file.contents
  unfolding ar_parse_size
  size-header_of =
      ap (λ (t : Bytes). size_loop (take 10 t) 0) behind_unread
      ∙ ap (λ (t : Bytes). size_loop t 0)
          (take_front 10 (filled 10 (digits file)) _
            (length-filled 10 (digits file) (length-digits file fits)))
      ∙ size_loop-digits (length file.contents) (10 - length (digits file)) (omega arith)

  pub magic-header_of : has_magic (header_of file) ≡ true
  unfolding has_magic
  magic-header_of =
      rw (get_or-drop (header_of file) 58 0 0, get_or-drop (header_of file) 58 1 0, behind_size)
