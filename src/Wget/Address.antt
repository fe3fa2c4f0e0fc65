-- ===== src/Wget/Address.antt =====
-- tools/wget.c: an address that is written as four numbers.
use Prim.Native.Nat.{bit_or}
use qoot.Base.{
  ℕ, suc, ◌+◌, ◌-◌, ◌*◌, ◌%◌, ◌^◌, [], ◌∷◌, Option, none, some, Bytes, length, take, get_or, map,
  ◌==◌, if◌then◌else◌,
}
use qoot.Sh.Words.{pieces}
use qoot.Str.{is_digit}

-- The number of dots, `none` where there is a byte that is no digit either.
unfoldable pub dots : Bytes → Option ℕ
dots [] = some 0
dots (c ∷ host) =
    if c == b'.'
    then (elim (dots host) [ some n ↦ some (suc n) | none ↦ none ])
    else if is_digit c
    then dots host
    else none

-- `parts[pi] = parts[pi] * 10 + (*p - '0')` over a part.
unfoldable pub part_loop : ℕ → Bytes → ℕ
part_loop n [] = n
part_loop n (c ∷ p) = part_loop ((n * 10 + (c - b'0')) % 2 ^ 32) p

-- `a | (b << 8) | (c << 16) | (d << 24)`
unfoldable pub packed : ℕ → ℕ → ℕ → ℕ → ℕ
packed a b c d =
    bit_or (bit_or (bit_or a (b * 2 ^ 8 % 2 ^ 32)) (c * 2 ^ 16 % 2 ^ 32)) (d * 2 ^ 24 % 2 ^ 32)

unfoldable pub address_of : Bytes → ℕ
unfolding packed part_loop
address_of host =
    let parts = map (part_loop 0) (take 4 (pieces b'.' (length host) host)) in
    packed (get_or parts 0 0) (get_or parts 1 0) (get_or parts 2 0) (get_or parts 3 0)

unfoldable pub quad : Bytes → Option ℕ
unfolding dots address_of
quad host = elim (dots host) [
  | some n ↦ if n == 3 then some (address_of host) else none
  | none ↦ none
]
