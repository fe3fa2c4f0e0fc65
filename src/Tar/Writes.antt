-- ===== src/Tar/Writes.antt =====
-- tools/tar.c: writes into a header, and the fields that they leave alone.
use qoot.Base.{
  ℕ, zero, suc, ◌+◌, ◌-◌, ◌≤◌, ◌≡◌, ◌⊎◌, inl, inr, refl, ap, sym, ◌∙◌, List, [], ◌∷◌, Bytes, length,
  take, drop, length-drop, All, arith,
}
use qoot.Tar.{field}

-- The bytes of `b` stored over the first ones.
abbrev pub overlay : Bytes → Bytes → Bytes
overlay [] b = []
overlay (x ∷ h) [] = x ∷ h
overlay (x ∷ h) (c ∷ b) = c ∷ overlay h b

-- The bytes of `b` stored from an offset on.
unfoldable pub write_at : Bytes → ℕ → Bytes → Bytes
write_at h zero b = overlay h b
write_at [] (suc offset) b = []
write_at (x ∷ h) (suc offset) b = x ∷ write_at h offset b

pub record Write : Type 0 where
  pub offset : ℕ
  pub bytes : Bytes

-- Writes one after the other.
unfoldable pub write_all_at : Bytes → List Write → Bytes
write_all_at h [] = h
write_all_at h (w ∷ writes) = write_all_at (write_at h w.offset w.bytes) writes

length-overlay : (h b : Bytes) → length (overlay h b) ≡ length h
length-overlay [] b = refl
length-overlay (x ∷ h) [] = refl
length-overlay (x ∷ h) (c ∷ b) = ap suc (length-overlay h b)

length-write_at : (h : Bytes) (offset : ℕ) (b : Bytes) → length (write_at h offset b) ≡ length h
unfolding write_at
length-write_at h zero b = length-overlay h b
length-write_at [] (suc offset) b = refl
length-write_at (x ∷ h) (suc offset) b = ap suc (length-write_at h offset b)

pub length-write_all_at :
    (h : Bytes) (writes : List Write) → length (write_all_at h writes) ≡ length h
unfolding write_all_at
length-write_all_at h [] = refl
length-write_all_at h (w ∷ writes) =
    length-write_all_at (write_at h w.offset w.bytes) writes ∙ length-write_at h w.offset w.bytes

take-write_at :
    (n : ℕ) (h : Bytes) (offset : ℕ) (b : Bytes)
    → n ≤ offset
    → take n (write_at h offset b) ≡ take n h
unfolding write_at
take-write_at zero h offset b le = refl
take-write_at (suc n) h zero b le = absurd (omega arith)
take-write_at (suc n) [] (suc offset) b le = refl
take-write_at (suc n) (x ∷ h) (suc offset) b le =
    ap (◌∷◌ x) (take-write_at n h offset b (omega arith))

drop-overlay : (n : ℕ) (h b : Bytes) → length b ≤ n → drop n (overlay h b) ≡ drop n h
drop-overlay n [] b le = refl
drop-overlay n (x ∷ h) [] le = refl
drop-overlay zero (x ∷ h) (c ∷ b) le = absurd (omega arith)
drop-overlay (suc n) (x ∷ h) (c ∷ b) le = drop-overlay n h b (omega arith)

drop-write_at_before :
    (n : ℕ) (h : Bytes) (offset : ℕ) (b : Bytes)
    → offset + length b ≤ n
    → drop n (write_at h offset b) ≡ drop n h
unfolding write_at
drop-write_at_before n h zero b le = drop-overlay n h b (omega arith)
drop-write_at_before n [] (suc offset) b le = refl
drop-write_at_before zero (x ∷ h) (suc offset) b le = absurd (omega arith)
drop-write_at_before (suc n) (x ∷ h) (suc offset) b le =
    drop-write_at_before n h offset b (omega arith)

write_at_nil : (offset : ℕ) (b : Bytes) → write_at [] offset b ≡ []
unfolding write_at
write_at_nil zero b = refl
write_at_nil (suc offset) b = refl

drop-write_at_behind :
    (n : ℕ) (h : Bytes) (offset : ℕ) (b : Bytes)
    → n ≤ offset
    → drop n (write_at h offset b) ≡ write_at (drop n h) (offset - n) b
unfolding write_at
drop-write_at_behind zero h offset b le =
    let same : offset - 0 ≡ offset = omega arith in rw same refl
drop-write_at_behind (suc n) h zero b le = absurd (omega arith)
drop-write_at_behind (suc n) [] (suc offset) b le = sym (write_at_nil (suc offset - suc n) b)
drop-write_at_behind (suc n) (x ∷ h) (suc offset) b le =
    let same : suc offset - suc n ≡ offset - n = omega arith in
    rw same (drop-write_at_behind n h offset b (omega arith))

take-overlay : (h b : Bytes) → length b ≤ length h → take (length b) (overlay h b) ≡ b
take-overlay h [] le = refl
take-overlay [] (c ∷ b) le = absurd (omega arith)
take-overlay (x ∷ h) (c ∷ b) le = ap (◌∷◌ c) (take-overlay h b (omega arith))

-- The field that has been written.
field-write_at :
    (h : Bytes) (offset : ℕ) (b : Bytes)
    → offset + length b ≤ length h
    → field (write_at h offset b) offset (length b) ≡ b
unfolding write_at
field-write_at h offset b le =
    let none : offset - offset ≡ 0 = omega arith in
    ap (take (length b)) (drop-write_at_behind offset h offset b (omega arith))
    ∙ rw none (take-overlay (drop offset h) b (omega (arith, length-drop offset h)))

-- Whether a write leaves a field alone.
abbrev pub Spares : ℕ → ℕ → Write → Type 0
Spares at len w = (at + len ≤ w.offset) ⊎ (w.offset + length w.bytes ≤ at)

field-write_at_other :
    (h : Bytes) (w : Write) (at len : ℕ)
    → Spares at len w
    → field (write_at h w.offset w.bytes) at len ≡ field h at len
field-write_at_other h w at len (inl before) =
    ap (take len) (drop-write_at_behind at h w.offset w.bytes (omega arith))
    ∙ take-write_at len (drop at h) (w.offset - at) w.bytes (omega arith)
field-write_at_other h w at len (inr behind) =
    ap (take len) (drop-write_at_before at h w.offset w.bytes behind)

-- A field that no write touches.
pub field-write_all_at :
    (h : Bytes) (writes : List Write) (at len : ℕ)
    → All (Spares at len) writes
    → field (write_all_at h writes) at len ≡ field h at len
unfolding write_all_at
field-write_all_at h [] at len spared = refl
field-write_all_at h (w ∷ writes) at len spared =
    field-write_all_at (write_at h w.offset w.bytes) writes at len spared.1
    ∙ field-write_at_other h w at len spared.0

-- A field that the first of the writes fills and the others leave alone.
pub field_written :
    (h : Bytes) (w : Write) (writes : List Write)
    → w.offset + length w.bytes ≤ length h
    → All (Spares w.offset (length w.bytes)) writes
    → field (write_all_at h (w ∷ writes)) w.offset (length w.bytes) ≡ w.bytes
unfolding write_all_at
field_written h w writes fits spared =
    field-write_all_at (write_at h w.offset w.bytes) writes w.offset (length w.bytes) spared
    ∙ field-write_at h w.offset w.bytes fits
