-- ===== src/Base/Bits.antt =====
-- Laws of `bit_and` and `bit_or` at variables, one binary digit at a time.
use Prim.Native.Nat.{
  ℕ, zero, suc, ◌+◌, ◌-◌, ◌*◌, ◌^◌, ◌/◌, ◌%◌, ◌≤◌, ◌<◌, min, max, bit_and, bit_or, digits,
  bit_and-bitwise, bit_or-bitwise,
}
use mathlib.Core.Path.{◌≡◌, refl, ap, ◌∙◌}
use native.Mathlib.Nat.{
  pow-suc, mul_assoc, div-add-mod', mul-add-mod_self_right, mod-eq_of_lt, mod-lt,
}
use native.Mathlib.Omega.{arith}

-- The recursion on digits does not depend on the fuel, once there is enough for the left operand.
digits_enough :
    (z : ℕ → ℕ) (op : ℕ → ℕ → ℕ) (x y f g : ℕ)
    → x ≤ f
    → x ≤ g
    → digits z op f x y ≡ digits z op g x y
digits_enough z op x y zero zero hf hg = refl
digits_enough z op zero y zero (suc g) hf hg = refl
digits_enough z op zero y (suc f) zero hf hg = refl
digits_enough z op zero y (suc f) (suc g) hf hg = refl
digits_enough z op (suc x) y zero (suc g) hf hg = absurd (omega arith)
digits_enough z op (suc x) y (suc f) zero hf hg = absurd (omega arith)
digits_enough z op (suc x) y (suc f) (suc g) hf hg =
    ap (λ r. r * 2 + op (suc x % 2) (y % 2))
      (digits_enough z op (suc x / 2) (y / 2) f g (omega arith) (omega arith))

abbrev lowest : (ℕ → ℕ → ℕ) → (ℕ → ℕ → ℕ) → ℕ → ℕ → ℕ
lowest whole op x y = whole (x / 2) (y / 2) * 2 + op (x % 2) (y % 2)

pub bit_or_step : (x y : ℕ) → bit_or x y ≡ lowest bit_or max x y
bit_or_step zero y = omega (arith, bit_or-bitwise 0 y, bit_or-bitwise 0 (y / 2))
bit_or_step (suc x) y =
    let half = suc x / 2 in
    let enough = digits_enough (λ b. b) max half (y / 2) x half (omega arith) (omega arith) in
    omega (arith, enough, bit_or-bitwise half (y / 2), bit_or-bitwise (suc x) y)

pub bit_and_step : (x y : ℕ) → bit_and x y ≡ lowest bit_and min x y
bit_and_step zero y = omega (arith, bit_and-bitwise 0 y, bit_and-bitwise 0 (y / 2))
bit_and_step (suc x) y =
    let half = suc x / 2 in
    let enough = digits_enough (λ b. 0) min half (y / 2) x half (omega arith) (omega arith) in
    omega (arith, enough, bit_and-bitwise half (y / 2), bit_and-bitwise (suc x) y)

bit_or-zero_fuel : (n a : ℕ) → a ≤ n → bit_or a 0 ≡ a
bit_or-zero_fuel n zero h = refl
bit_or-zero_fuel zero (suc a) h = absurd (omega arith)
bit_or-zero_fuel (suc n) (suc a) h =
    omega (arith, bit_or_step (suc a) 0, bit_or-zero_fuel n (suc a / 2) (omega arith))

pub bit_or-zero : (a : ℕ) → bit_or a 0 ≡ a
bit_or-zero a = bit_or-zero_fuel a a (omega arith)

bit_or_comm_fuel : (n a b : ℕ) → a ≤ n → b ≤ n → bit_or a b ≡ bit_or b a
bit_or_comm_fuel zero a b ha hb =
    let za : a ≡ 0 = omega arith in let zb : b ≡ 0 = omega arith in rw (za, zb) refl
bit_or_comm_fuel (suc n) a b ha hb =
    let halves = bit_or_comm_fuel n (a / 2) (b / 2) (omega arith) (omega arith) in
    omega (arith, bit_or_step a b, bit_or_step b a, halves)

pub bit_or_comm : (a b : ℕ) → bit_or a b ≡ bit_or b a
bit_or_comm a b = bit_or_comm_fuel (a + b) a b (omega arith) (omega arith)

-- An even left operand keeps the lowest digit of the right one.
bit_or_even : (x d : ℕ) → bit_or (x * 2) d ≡ bit_or x (d / 2) * 2 + d % 2
bit_or_even x d =
    let half : x * 2 / 2 ≡ x = omega arith in
    let step : bit_or (x * 2) d ≡ bit_or x (d / 2) * 2 + max (x * 2 % 2) (d % 2) =
      rw half at (bit_or_step (x * 2) d) in
    omega (arith, step)

-- `(a << k) | d` is a sum, for a digit `d` that fits in the bits shifted in.
pub bit_or_shift : (k a d : ℕ) → d < 2 ^ k → bit_or (a * 2 ^ k) d ≡ a * 2 ^ k + d
bit_or_shift zero a d h =
    let none : d ≡ 0 = omega arith in rw none (omega (arith, bit_or-zero (a * 2 ^ 0)))
bit_or_shift (suc k) a d h =
    let twice : a * 2 ^ suc k ≡ a * 2 ^ k * 2 = rw pow-suc (omega arith) in
    let fits : d / 2 < 2 ^ k = let b : d < 2 ^ k * 2 = rw pow-suc at h in omega arith in
    rw twice (omega (arith, bit_or_even (a * 2 ^ k) d, bit_or_shift k a (d / 2) fits))

no_common_digit : (bound x : ℕ) → x ≤ bound → bit_and x 0 ≡ 0
no_common_digit zero x h = let none : x ≡ 0 = omega arith in rw none refl
no_common_digit (suc bound) x h =
    omega (arith, bit_and_step x 0, no_common_digit bound (x / 2) (omega arith))

-- A remainder by twice a number keeps the lowest digit.
pub mod_twice : (a p : ℕ) → 0 < p → a % (p * 2) ≡ a / 2 % p * 2 + a % 2
mod_twice a p h =
    let low = a / 2 % p * 2 + a % 2 in
    let bound : low < p * 2 = omega (arith, mod-lt (a / 2) {m = p} h) in
    let high : a ≡ a / 2 / p * (p * 2) + low = omega (arith, div-add-mod' (a / 2) p) in
    ap (λ n. n % (p * 2)) high
    ∙ (mul-add-mod_self_right (a / 2 / p) (p * 2) low ∙ mod-eq_of_lt bound)

pub pow_pos : (n : ℕ) → 0 < 2 ^ n
pow_pos zero = omega arith
pow_pos (suc n) = rw pow-suc (omega (arith, pow_pos n))

-- A mask of n ones is a remainder.
pub bit_and_mask : (n a : ℕ) → bit_and a (2 ^ n - 1) ≡ a % 2 ^ n
bit_and_mask zero a = omega (arith, no_common_digit a a (omega arith))
bit_and_mask (suc n) a =
    let p = 2 ^ n in
    let pos = pow_pos n in
    let half : (p * 2 - 1) / 2 ≡ p - 1 = omega arith in
    let step : bit_and a (p * 2 - 1) ≡ bit_and (a / 2) (p - 1) * 2 + min (a % 2) ((p * 2 - 1) % 2) =
      rw half at (bit_and_step a (p * 2 - 1)) in
    rw pow-suc (omega (arith, step, bit_and_mask n (a / 2), mod_twice a p pos))

pub pow_add : (m n : ℕ) → 2 ^ (m + n) ≡ 2 ^ m * 2 ^ n
pow_add zero n = let same : 0 + n ≡ n = omega arith in rw same (omega arith)
pow_add (suc m) n =
    let next : suc m + n ≡ suc (m + n) = omega arith in
    rw (next, pow-suc 2 (m + n), pow-suc 2 m, pow_add m n)
      (omega (arith, mul_assoc (2 ^ m) 2 (2 ^ n), mul_assoc (2 ^ m) (2 ^ n) 2))
