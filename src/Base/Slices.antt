-- ===== src/Base/Slices.antt =====
-- Parts of lists.
use Prim.Native.Nat.{ℕ, zero, suc, ◌+◌, ◌≤◌}
use mathlib.Core.Path.{◌≡◌, refl, ap, sym, ◌∙◌}
use mathlib.Core.List.{List, [], ◌∷◌, ◌++◌}
use native.Mathlib.Omega.{arith}
use qoot.Base.Lists.{length, take, drop, get_or, take-length-append, drop-length-append}

pub take_front {ℓ} :
    {A : Type ℓ} (n : ℕ) (front back : List A) → length front ≡ n → take n (front ++ back) ≡ front
take_front n front back e = ap (λ m. take m (front ++ back)) (sym e) ∙ take-length-append front back

pub drop_front {ℓ} :
    {A : Type ℓ} (n : ℕ) (front back : List A) → length front ≡ n → drop n (front ++ back) ≡ back
drop_front n front back e = ap (λ m. drop m (front ++ back)) (sym e) ∙ drop-length-append front back

pub take_inside {ℓ} :
    {A : Type ℓ} (n : ℕ) (front back : List A)
    → n ≤ length front
    → take n (front ++ back) ≡ take n front
take_inside zero front back h = refl
take_inside (suc n) [] back h = absurd (omega arith)
take_inside (suc n) (x ∷ front) back h = ap (◌∷◌ x) (take_inside n front back (omega arith))

pub drop_inside {ℓ} :
    {A : Type ℓ} (n : ℕ) (front back : List A)
    → n ≤ length front
    → drop n (front ++ back) ≡ drop n front ++ back
drop_inside zero front back h = refl
drop_inside (suc n) [] back h = absurd (omega arith)
drop_inside (suc n) (x ∷ front) back h = drop_inside n front back (omega arith)

zero_plus : (n : ℕ) → 0 + n ≡ n
zero_plus n = omega arith

suc_plus : (m n : ℕ) → suc m + n ≡ suc (m + n)
suc_plus m n = omega arith

drop_empty {ℓ} : {A : Type ℓ} (n : ℕ) → ◌≡◌ {A = List A} (drop n []) []
drop_empty zero = refl
drop_empty (suc n) = refl

pub drop-drop {ℓ} : {A : Type ℓ} (m n : ℕ) (l : List A) → drop (m + n) l ≡ drop n (drop m l)
drop-drop zero n l = ap (λ k. drop k l) (zero_plus n)
drop-drop (suc m) n [] = drop_empty (suc m + n) ∙ sym (drop_empty n)
drop-drop (suc m) n (x ∷ l) = ap (λ k. drop k (x ∷ l)) (suc_plus m n) ∙ drop-drop m n l

pub get_or-drop {ℓ} :
    {A : Type ℓ} (l : List A) (m n : ℕ) (z : A) → get_or l (m + n) z ≡ get_or (drop m l) n z
get_or-drop l zero n z = ap (λ k. get_or l k z) (zero_plus n)
get_or-drop [] (suc m) n z = refl
get_or-drop (x ∷ l) (suc m) n z = ap (λ k. get_or (x ∷ l) k z) (suc_plus m n) ∙ get_or-drop l m n z
