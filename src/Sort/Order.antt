-- ===== src/Sort/Order.antt =====
-- tools/sort.c: the comparison is a total order on C strings under every combination of flags.
use qoot.Base.{◌≡◌, ◌↔◌, ◌⊎◌, Bool, true, false, [], ◌∷◌, Bytes, arith}
use qoot.Base.Int.{ℤ, pos, ◌≤ℤ◌}
use qoot.Str.{IsCString, str_cmp}
use qoot.Str.Laws.{LexLe, LexLe-trans, LexLe-total, str_cmp-le_iff}
use qoot.Str.Parse.{str_to_long}
use qoot.Sort.{compare_lines, not_positive, negate}

-- The order that the options ask for: of the numbers that the lines begin with, or of the bytes.
abbrev pub Below : Bool → Bytes → Bytes → Type 0
Below true a b = str_to_long a ≤ℤ str_to_long b
Below false a b = LexLe a b

abbrev pub Ordered : Bool → Bool → Bytes → Bytes → Type 0
Ordered numeric false a b = Below numeric a b
Ordered numeric true a b = Below numeric b a

not_positive_iff : (i : ℤ) → (not_positive i ≡ true) ↔ (i ≤ℤ pos 0)
not_positive_iff i = ground arith

negate_iff : (i : ℤ) → (not_positive (negate i) ≡ true) ↔ (pos 0 ≤ℤ i)
negate_iff i = ground arith

-- Swapping the operands swaps the sign.
str_cmp-swap : (a b : Bytes) → (pos 0 ≤ℤ str_cmp a b) ↔ (str_cmp b a ≤ℤ pos 0)
unfolding str_cmp
str_cmp-swap [] [] = ground arith
str_cmp-swap [] (y ∷ b) = ground arith
str_cmp-swap (x ∷ a) [] = ground arith
str_cmp-swap (x ∷ a) (y ∷ b) = ground (arith, str_cmp-swap a b)

-- `cmp <= 0` decides the order.
pub compare_lines_iff :
    (numeric reverse_flag : Bool) (a b : Bytes)
    → IsCString a
    → IsCString b
    → (not_positive (compare_lines numeric reverse_flag a b) ≡ true)
      ↔ Ordered numeric reverse_flag a b
unfolding compare_lines
compare_lines_iff true false a b ca cb = ground arith
compare_lines_iff true true a b ca cb = ground arith
compare_lines_iff false false a b ca cb =
    let i = not_positive_iff (str_cmp a b) in
    let l = str_cmp-le_iff a b ca cb in (λ h. l.0 (i.0 h), λ h. i.1 (l.1 h))
compare_lines_iff false true a b ca cb =
    let i = negate_iff (str_cmp a b) in
    let s = str_cmp-swap a b in
    let l = str_cmp-le_iff b a cb ca in (λ h. l.0 (s.0 (i.0 h)), λ h. i.1 (s.1 (l.1 h)))

Below-trans :
    (numeric : Bool) (a b c : Bytes) → Below numeric a b → Below numeric b c → Below numeric a c
Below-trans true a b c h k = omega arith
Below-trans false a b c h k = LexLe-trans a b c h k

Below-total : (numeric : Bool) (a b : Bytes) → Below numeric a b ⊎ Below numeric b a
Below-total true a b = grind arith
Below-total false a b = LexLe-total a b

pub Ordered-trans :
    (numeric reverse_flag : Bool) (a b c : Bytes)
    → Ordered numeric reverse_flag a b
    → Ordered numeric reverse_flag b c
    → Ordered numeric reverse_flag a c
Ordered-trans numeric false a b c h k = Below-trans numeric a b c h k
Ordered-trans numeric true a b c h k = Below-trans numeric c b a k h

pub Ordered-total :
    (numeric reverse_flag : Bool) (a b : Bytes)
    → Ordered numeric reverse_flag a b ⊎ Ordered numeric reverse_flag b a
Ordered-total numeric false a b = Below-total numeric a b
Ordered-total numeric true a b = Below-total numeric b a
