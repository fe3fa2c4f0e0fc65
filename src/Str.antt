-- ===== src/Str.antt =====
-- include/string.h: strings, character classes and bounded copies.
--
-- A NUL-terminated string is the list of the bytes before its terminator, and a pointer into it
-- is the suffix that it points at; NULL is `none`. A `char` is its unsigned byte: the source
-- compares `char`s by `==`, or against ASCII bounds, where the sign makes no difference.
pub mod Digits
pub mod Parse
pub mod Laws
pub mod Search
pub mod Copy
pub mod Places
pub mod RoundTrip
use qoot.Base.{
  ℕ, zero, suc, ◌+◌, ◌-◌, ◌<◌, ◌≤◌, Bool, true, false, ◌&&◌, ◌||◌, List, [], ◌∷◌, ◌++◌, Option,
  none, some, Bytes, length, drop, replicate, All, ltb, leb, ◌==◌, if◌then◌else◌,
}
use qoot.Base.Int.{ℤ, pos, sub_ℕ}

-- The bytes of a C string: none of them is the terminator.
abbrev pub IsCString : Bytes → Type 0
IsCString = All (λ c. (0 < c) × (c < 256))

-- `*s`
abbrev pub peek : Bytes → ℕ
peek [] = 0
peek (c ∷ s) = c

-- What a reader of the array sees as a string: the bytes before the first NUL.
unfoldable pub cstr : Bytes → Bytes
cstr [] = []
cstr (c ∷ s) = if c == 0 then [] else c ∷ cstr s

unfoldable pub str_len : Bytes → ℕ
str_len [] = 0
str_len (c ∷ s) = suc (str_len s)

unfoldable pub str_cmp : Bytes → Bytes → ℤ
str_cmp [] b = sub_ℕ 0 (peek b)
str_cmp (x ∷ a) [] = sub_ℕ x 0
str_cmp (x ∷ a) (y ∷ b) = if x == y then str_cmp a b else sub_ℕ x y

unfoldable pub str_ncmp : Bytes → Bytes → ℕ → ℤ
str_ncmp a b zero = pos 0
str_ncmp [] b (suc n) = sub_ℕ 0 (peek b)
str_ncmp (x ∷ a) [] (suc n) = sub_ℕ x 0
str_ncmp (x ∷ a) (y ∷ b) (suc n) = if x == y then str_ncmp a b n else sub_ℕ x y

-- `str_cmp(a, b) == 0`
abbrev pub is_zero : ℤ → Bool
is_zero (pos n) = n == 0
is_zero _ = false

unfoldable pub str_eq : Bytes → Bytes → Bool
unfolding str_cmp
str_eq a b = is_zero (str_cmp a b)

unfoldable pub str_chr : Bytes → ℕ → Option Bytes
str_chr [] c = if c == 0 then some [] else none
str_chr (x ∷ s) c = if x == c then some (x ∷ s) else str_chr s c

-- The loop of `str_rchr`, with `last`.
rchr_loop : Bytes → ℕ → Option Bytes → Option Bytes
rchr_loop [] c last = if c == 0 then some [] else last
rchr_loop (x ∷ s) c last = rchr_loop s c (if x == c then some (x ∷ s) else last)

unfoldable pub str_rchr : Bytes → ℕ → Option Bytes
unfolding rchr_loop
str_rchr s c = rchr_loop s c none

-- What `n` points at when the inner loop of `str_str` stops.
unmatched : Bytes → Bytes → Bytes
unmatched h [] = []
unmatched [] (y ∷ n) = y ∷ n
unmatched (x ∷ h) (y ∷ n) = if x == y then unmatched h n else y ∷ n

str_loop : Bytes → Bytes → Option Bytes
str_loop [] needle = none
str_loop (x ∷ h) needle =
    if peek (unmatched (x ∷ h) needle) == 0 then some (x ∷ h) else str_loop h needle

unfoldable pub str_str : Bytes → Bytes → Option Bytes
unfolding str_loop unmatched
str_str haystack needle = if peek needle == 0 then some haystack else str_loop haystack needle

-- The first loop of `str_ncpy`: the bytes stored, and `n` when the loop stops. The round that
-- stores the terminator does not count `n` down.
ncpy_copy : Bytes → ℕ → Bytes × ℕ
ncpy_copy src zero = ([], 0)
ncpy_copy [] (suc n) = (0 ∷ [], suc n)
ncpy_copy (c ∷ src) (suc n) = let (w, left) = ncpy_copy src n in (c ∷ w, left)

-- `dest` is the memory from the destination on, before the call and after it.
unfoldable pub str_ncpy : Bytes → Bytes → ℕ → Bytes
unfolding ncpy_copy
str_ncpy dest src n =
    let (w, left) = ncpy_copy src n in
    let stored = w ++ replicate left 0 in stored ++ drop (length stored) dest

unfoldable pub is_space : ℕ → Bool
is_space c = c == 32 || c == 9 || c == 10 || c == 13 || c == 11 || c == 12

unfoldable pub is_digit : ℕ → Bool
is_digit c = leb b'0' c && leb c b'9'

unfoldable pub is_upper : ℕ → Bool
is_upper c = leb b'A' c && leb c b'Z'

unfoldable pub is_lower : ℕ → Bool
is_lower c = leb b'a' c && leb c b'z'

unfoldable pub is_alpha : ℕ → Bool
is_alpha c = leb b'a' c && leb c b'z' || leb b'A' c && leb c b'Z'

unfoldable pub is_alnum : ℕ → Bool
unfolding is_alpha is_digit
is_alnum c = is_alpha c || is_digit c

unfoldable pub to_lower : ℕ → ℕ
unfolding is_upper
to_lower c = if is_upper c then c + 32 else c

unfoldable pub to_upper : ℕ → ℕ
unfolding is_lower
to_upper c = if is_lower c then c - 32 else c

unfoldable pub skip_space : Bytes → Bytes
unfolding is_space
skip_space [] = []
skip_space (c ∷ s) = if is_space c then skip_space s else c ∷ s

unfoldable pub starts_with : Bytes → Bytes → Bool
starts_with s [] = true
starts_with [] (p ∷ prefix) = false
starts_with (c ∷ s) (p ∷ prefix) = if c == p then starts_with s prefix else false

unfoldable pub ends_with : Bytes → Bytes → Bool
unfolding str_len str_eq
ends_with s suffix =
    let sl = str_len s in
    let xl = str_len suffix in if ltb sl xl then false else str_eq (drop (sl - xl) s) suffix
