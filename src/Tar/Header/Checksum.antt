-- ===== src/Tar/Header/Checksum.antt =====
-- tools/tar.c: the checksum that `tar_write_header` stores is the one that `tar_extract` computes.
use qoot.Base.{
  ℕ, zero, suc, ◌+◌, ◌-◌, ◌%◌, ◌^◌, ◌<◌, ◌≤◌, ◌≡◌, ◌⊎◌, inl, inr, refl, ap, sym, ◌∙◌, true, [], ◌∷◌,
  ◌++◌, append_assoc, Bytes, length, take, drop, All, arith, eq→==,
}
use qoot.Tar.{
  field, tar_ulong_to_oct, octal_digits, tar_oct_to_ulong, tar_oct_loop, tar_checksum,
  checksum_holds,
}
use qoot.Tar.Fields.{tar_oct_loop-digits}
use qoot.Tar.Header.{signed}
use qoot.Tar.Header.Fits.{AreBytes, length-tar_ulong_to_oct, tar_checksum-lt}
use qoot.Tar.Writes.{
  Write, write_at, write_all_at, Spares, length-write_all_at, field-write_all_at, field_written,
}

take_nil : (n : ℕ) → take {A = ℕ} n [] ≡ []
take_nil zero = refl
take_nil (suc n) = refl

drop_nil : (n : ℕ) → drop {A = ℕ} n [] ≡ []
drop_nil zero = refl
drop_nil (suc n) = refl

take_parts : (n k : ℕ) (xs : Bytes) → n ≤ k → take k xs ≡ take n xs ++ take (k - n) (drop n xs)
take_parts zero k xs le = let all : k - 0 ≡ k = omega arith in rw all refl
take_parts (suc n) zero xs le = absurd (omega arith)
take_parts (suc n) (suc k) [] le = sym (take_nil (suc k - suc n))
take_parts (suc n) (suc k) (x ∷ xs) le =
    let less : suc k - suc n ≡ k - n = omega arith in
    rw less (ap (◌∷◌ x) (take_parts n k xs (omega arith)))

drop-drop : (n m k : ℕ) (xs : Bytes) → k ≡ m + n → drop n (drop m xs) ≡ drop k xs
drop-drop n zero k xs e = ap (λ (j : ℕ). drop j xs) (omega (arith, e))
drop-drop n (suc m) zero xs e = absurd (omega (arith, e))
drop-drop n (suc m) (suc k) [] e = drop_nil n
drop-drop n (suc m) (suc k) (x ∷ xs) e = drop-drop n m k xs (omega (arith, e))

-- The eight bytes of the checksum's field.
checksum_field : (h : Bytes) → field h 148 8 ≡ field h 148 7 ++ field h 155 1
checksum_field h =
    take_parts 7 8 (drop 148 h) (omega arith)
    ∙ ap (λ (t : Bytes). field h 148 7 ++ take 1 t) (drop-drop 7 148 155 h refl)

-- A sum of at most six digits is read back from its field.
sum_field : (c : ℕ) → c < 8 ^ 6 → tar_oct_to_ulong (tar_ulong_to_oct 7 c ++ b' ' ∷ []) ≡ c
unfolding tar_oct_to_ulong tar_ulong_to_oct
sum_field c small =
    ap (λ t. tar_oct_loop t 0) (append_assoc (octal_digits 6 c) (0 ∷ []) (b' ' ∷ []))
    ∙ tar_oct_loop-digits 6 c 0 (0 ∷ b' ' ∷ []) small (omega arith)
    ∙ ap (tar_oct_loop (0 ∷ b' ' ∷ [])) (omega arith)

module _ (h : Bytes) where
  chksum_write : Write
  chksum_write = record { offset = 148; bytes = tar_ulong_to_oct 7 (tar_checksum h) }

  space_write : Write
  space_write = record { offset = 155; bytes = b' ' ∷ [] }

  spared :
      (at len : ℕ)
      → (at + len ≤ 148) ⊎ (156 ≤ at)
      → All (Spares at len) (chksum_write ∷ space_write ∷ [])
  unfolding chksum_write space_write
  spared at len (inl before) = (inl before, (inl (omega arith), tt))
  spared at len (inr behind) = (
    inr (omega (arith, length-tar_ulong_to_oct 7 (tar_checksum h) (omega arith))),
    (inr (omega arith), tt),
  )

  -- The fields outside the checksum's are those of the header before.
  pub signed-spares :
      (at len : ℕ) → (at + len ≤ 148) ⊎ (156 ≤ at) → field (signed h) at len ≡ field h at len
  unfolding signed chksum_write space_write
  signed-spares at len apart =
      field-write_all_at h (chksum_write ∷ space_write ∷ []) at len (spared at len apart)

  signed_digits : length h ≡ 512 → field (signed h) 148 7 ≡ tar_ulong_to_oct 7 (tar_checksum h)
  unfolding signed chksum_write space_write
  signed_digits whole =
      let seven = length-tar_ulong_to_oct 7 (tar_checksum h) (omega arith) in
      ap (λ (n : ℕ). field (signed h) 148 n) (sym seven)
      ∙ field_written h chksum_write (space_write ∷ []) (omega (arith, seven))
          (inl (omega (arith, seven)), tt)

  signed_space : length h ≡ 512 → field (signed h) 155 1 ≡ b' ' ∷ []
  unfolding signed write_all_at chksum_write space_write
  signed_space whole =
      let h1 = write_at h 148 (tar_ulong_to_oct 7 (tar_checksum h)) in
      field_written h1 space_write [] (omega (arith, length-write_all_at h (chksum_write ∷ []))) tt

  signed-tar_checksum : tar_checksum (signed h) ≡ tar_checksum h
  unfolding tar_checksum
  signed-tar_checksum =
      rw (signed-spares 0 148 (inl (omega arith)), signed-spares 156 356 (inr (omega arith))) refl

  signed_sum :
      length h ≡ 512 → AreBytes h → tar_oct_to_ulong (field (signed h) 148 8) ≡ tar_checksum h
  signed_sum whole bytes =
      ap tar_oct_to_ulong (
        checksum_field (signed h)
        ∙ ap (λ (t : Bytes). t ++ field (signed h) 155 1) (signed_digits whole)
        ∙ ap (λ (t : Bytes). tar_ulong_to_oct 7 (tar_checksum h) ++ t) (signed_space whole))
      ∙ sum_field (tar_checksum h) (tar_checksum-lt h bytes)

  pub signed-checksum_holds : length h ≡ 512 → AreBytes h → checksum_holds (signed h) ≡ true
  unfolding checksum_holds
  signed-checksum_holds whole bytes =
      let small = tar_checksum-lt h bytes in
      rw (signed_sum whole bytes, signed-tar_checksum)
        (eq→== (tar_checksum h % 2 ^ 32) (tar_checksum h) (omega (arith, small)))
