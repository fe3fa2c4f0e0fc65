-- ===== src/Tar/Fields.antt =====
-- tools/tar.c: an octal field that is written and read again.
use native.Mathlib.Nat.{mul_assoc, pow-suc, pow-le-pow_right}
use qoot.Base.{
  ℕ, zero, suc, ◌+◌, ◌-◌, ◌*◌, ◌/◌, ◌%◌, ◌^◌, ◌<◌, ◌≤◌, ◌≡◌, refl, ap, sym, ◌∙◌, true, [], ◌∷◌,
  ◌++◌, append_assoc, Bytes, if◌then◌else◌, arith, leb, ◌&&◌,
}
use qoot.Base.Bits.{bit_or_shift}
use qoot.Tar.{tar_oct_loop, tar_oct_to_ulong, octal_digits, tar_ulong_to_oct}

-- One digit.
tar_oct_loop-cons :
    (d : ℕ) (rest : Bytes) (acc : ℕ)
    → d < 8
    → acc * 8 + d < 2 ^ 64
    → tar_oct_loop ((b'0' + d) ∷ rest) acc ≡ tar_oct_loop rest (acc * 8 + d)
unfolding tar_oct_loop
tar_oct_loop-cons d rest acc small fits =
    let low : leb b'0' (b'0' + d) && leb (b'0' + d) b'7' ≡ true = ground arith in
    let digit : b'0' + d - b'0' ≡ d = omega arith in
    let room : acc * 8 % 2 ^ 64 ≡ acc * 8 = omega arith in
    rw (low, if◌then◌else◌, digit, room, bit_or_shift 3 acc d small) refl

pub tar_oct_loop-digits :
    (n v acc : ℕ) (rest : Bytes)
    → v < 8 ^ n
    → acc * 8 ^ n + v < 2 ^ 64
    → tar_oct_loop (octal_digits n v ++ rest) acc ≡ tar_oct_loop rest (acc * 8 ^ n + v)
unfolding octal_digits
tar_oct_loop-digits zero v acc rest small fits =
    let none : v ≡ 0 = omega arith in let same : acc * 8 ^ 0 + v ≡ acc = omega arith in rw same refl
tar_oct_loop-digits (suc n) v acc rest small fits =
    let p = 8 ^ n in
    let small' : v < p * 8 = rw pow-suc at small in
    let power : acc * 8 ^ suc n ≡ acc * p * 8 = rw (pow-suc 8 n) (sym (mul_assoc acc p 8)) in
    let fits' : acc * p * 8 + v < 2 ^ 64 = rw power at fits in
    let whole : (acc * p + v / 8) * 8 + v % 8 ≡ acc * 8 ^ suc n + v = omega (arith, power) in
    ap (λ t. tar_oct_loop t acc) (append_assoc (octal_digits n (v / 8)) ((b'0' + v % 8) ∷ []) rest)
    ∙ tar_oct_loop-digits n (v / 8) acc ((b'0' + v % 8) ∷ rest) (omega arith) (omega arith)
    ∙ tar_oct_loop-cons (v % 8) rest (acc * p + v / 8) (omega arith) (omega arith)
    ∙ ap (tar_oct_loop rest) whole

-- A number that has fewer octal digits than the field has bytes, in a field of at most 22, is read
-- back from the field.
pub tar_oct_to_ulong-tar_ulong_to_oct :
    (len val : ℕ)
    → 0 < len
    → len ≤ 22
    → val < 8 ^ (len - 1)
    → tar_oct_to_ulong (tar_ulong_to_oct len val) ≡ val
unfolding tar_oct_to_ulong tar_ulong_to_oct
tar_oct_to_ulong-tar_ulong_to_oct len val some_room most small =
    let top : 8 ^ (len - 1) ≤ 8 ^ 21 =
      pow-le-pow_right (omega arith) {i = len - 1} {j = 21} (omega arith) in
    let start : 0 * 8 ^ (len - 1) + val ≡ val = omega arith in
    tar_oct_loop-digits (len - 1) val 0 (0 ∷ []) small (omega arith)
    ∙ ap (tar_oct_loop (0 ∷ [])) start
