-- ===== src/Cut.antt =====
-- tools/cut.c: the ranges, and what is printed for a line.
pub mod Joined
use qoot.Base.{
  ℕ, zero, suc, ◌+◌, ◌-◌, ◌*◌, ◌%◌, Bool, true, false, ◌&&◌, ◌||◌, List, [], ◌∷◌, ◌++◌, Bytes,
  length, drop, leb, ◌==◌, map, if◌then◌else◌,
}
use qoot.Io.{Reader, read_lines}
use qoot.Str.{peek, is_digit, cstr}

-- `pos >= ranges[2 * i] && pos <= ranges[2 * i + 1]` for some `i`.
unfoldable pub in_ranges : ℕ → List (ℕ × ℕ) → Bool
in_ranges pos [] = false
in_ranges pos ((first, last) ∷ ranges) = leb first pos && leb pos last || in_ranges pos ranges

-- The bytes of a line, from position `i + 1` on.
unfoldable pub cut_bytes_line : List (ℕ × ℕ) → ℕ → Bytes → Bytes
cut_bytes_line ranges i [] = []
cut_bytes_line ranges i (c ∷ line) =
    let later = cut_bytes_line ranges (suc i) line in
    if in_ranges (suc i) ranges then c ∷ later else later

-- A field that is printed: behind the delimiter, unless it is the first one.
unfoldable pub shown : ℕ → Bool → Bytes → Bytes
shown delim first field = if first then field else delim ∷ field

-- The loop over a line, with the bytes from `start` to `p`, the number of the field, and `first`.
unfoldable pub cut_fields_line : ℕ → List (ℕ × ℕ) → Bytes → Bytes → ℕ → Bool → Bytes
cut_fields_line delim ranges [] start n first =
    if in_ranges n ranges then shown delim first start else []
cut_fields_line delim ranges (c ∷ p) start n first =
    let selected = in_ranges n ranges in
    let next = cut_fields_line delim ranges p [] (suc n) (if selected then false else first) in
    let same = cut_fields_line delim ranges p (start ++ c ∷ []) n first in
    if c == delim then (if selected then shown delim first start ++ next else next) else same

module _ (k : Reader) (f : ℕ) where
  -- What is printed for each line, without the newline that `print("\n")` adds.
  unfoldable pub cut_bytes : List (ℕ × ℕ) → k.State → List Bytes
  cut_bytes ranges fd = map (cut_bytes_line ranges 0) (read_lines k f fd 4096)

  unfoldable pub cut_fields : ℕ → List (ℕ × ℕ) → k.State → List Bytes
  cut_fields delim ranges fd =
      map (λ line. cut_fields_line delim ranges (cstr line) [] 1 true) (read_lines k f fd 4096)
