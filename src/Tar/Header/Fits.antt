-- ===== src/Tar/Header/Fits.antt =====
-- tools/tar.c: the sizes and the bytes of what a header is written from.
use qoot.Base.{
  ℕ, zero, suc, ◌+◌, ◌-◌, ◌*◌, ◌/◌, ◌%◌, ◌^◌, ◌<◌, ◌≤◌, ◌≡◌, refl, ap, ◌∙◌, List, [], ◌∷◌, ◌++◌,
  append-nil, Bytes, length, length-append, length-replicate, take, drop, replicate, sum, All,
  All-append, arith, dec_lt,
}
use qoot.Str.{IsCString, cstr}
use qoot.Str.Copy.{str_ncpy_short, str_ncpy_long, take_all}
use qoot.Tar.{tar_ulong_to_oct, octal_digits, tar_checksum}
use qoot.Tar.Header.{copied}
use qoot.Tar.Writes.{write_at, overlay, Write, write_all_at}

abbrev pub AreBytes : Bytes → Type 0
AreBytes = All (λ c. c < 256)

length-octal_digits : (n v : ℕ) → length (octal_digits n v) ≡ n
unfolding octal_digits
length-octal_digits zero v = refl
length-octal_digits (suc n) v = omega (
  arith,
  length-append (octal_digits n (v / 8)) ((b'0' + v % 8) ∷ []),
  length-octal_digits n (v / 8),
)

pub length-tar_ulong_to_oct : (len v : ℕ) → 0 < len → length (tar_ulong_to_oct len v) ≡ len
unfolding tar_ulong_to_oct
length-tar_ulong_to_oct len v some_room =
    omega
      (arith, length-append (octal_digits (len - 1) v) (0 ∷ []), length-octal_digits (len - 1) v)

octal_digits-AreBytes : (n v : ℕ) → AreBytes (octal_digits n v)
unfolding octal_digits
octal_digits-AreBytes zero v = tt
octal_digits-AreBytes (suc n) v =
    All-append (λ c. c < 256) (octal_digits n (v / 8)) ((b'0' + v % 8) ∷ [])
      (octal_digits-AreBytes n (v / 8)) (omega arith, tt)

pub tar_ulong_to_oct-AreBytes : (len v : ℕ) → AreBytes (tar_ulong_to_oct len v)
unfolding tar_ulong_to_oct
tar_ulong_to_oct-AreBytes len v =
    All-append (λ c. c < 256) (octal_digits (len - 1) v) (0 ∷ [])
      (octal_digits-AreBytes (len - 1) v) (omega arith, tt)

pub zeros-AreBytes : (n : ℕ) → AreBytes (replicate n 0)
zeros-AreBytes zero = tt
zeros-AreBytes (suc n) = (omega arith, zeros-AreBytes n)

overlay-AreBytes : (h b : Bytes) → AreBytes h → AreBytes b → AreBytes (overlay h b)
overlay-AreBytes [] b hh hb = tt
overlay-AreBytes (x ∷ h) [] hh hb = hh
overlay-AreBytes (x ∷ h) (c ∷ b) hh hb = (hb.0, overlay-AreBytes h b hh.1 hb.1)

write_at-AreBytes :
    (h : Bytes) (offset : ℕ) (b : Bytes) → AreBytes h → AreBytes b → AreBytes (write_at h offset b)
unfolding write_at
write_at-AreBytes h zero b hh hb = overlay-AreBytes h b hh hb
write_at-AreBytes [] (suc offset) b hh hb = tt
write_at-AreBytes (x ∷ h) (suc offset) b hh hb = (hh.0, write_at-AreBytes h offset b hh.1 hb)

pub write_all_at-AreBytes :
    (h : Bytes) (writes : List Write)
    → AreBytes h
    → All (λ w. AreBytes w.bytes) writes
    → AreBytes (write_all_at h writes)
unfolding write_all_at
write_all_at-AreBytes h [] hh hw = hh
write_all_at-AreBytes h (w ∷ writes) hh hw =
    write_all_at-AreBytes (write_at h w.offset w.bytes) writes
      (write_at-AreBytes h w.offset w.bytes hh hw.0) hw.1

sum-take : (n : ℕ) (h : Bytes) → AreBytes h → sum (take n h) ≤ n * 255
sum-take zero h hh = omega arith
sum-take (suc n) [] hh = omega arith
sum-take (suc n) (x ∷ h) hh = omega (arith, sum-take n h hh.1, hh.0)

drop-AreBytes : (n : ℕ) (h : Bytes) → AreBytes h → AreBytes (drop n h)
drop-AreBytes zero h hh = hh
drop-AreBytes (suc n) [] hh = tt
drop-AreBytes (suc n) (x ∷ h) hh = drop-AreBytes n h hh.1

-- The checksum has at most six octal digits.
pub tar_checksum-lt : (h : Bytes) → AreBytes h → tar_checksum h < 8 ^ 6
unfolding tar_checksum
tar_checksum-lt h hh =
    omega (arith, sum-take 148 h hh, sum-take 356 (drop 156 h) (drop-AreBytes 156 h hh))

-- What `str_ncpy` stores for a text that fits the field.
pub copied_short :
    (s : Bytes) (n : ℕ) → length s < n → copied s n ≡ s ++ 0 ∷ replicate (n - length s) 0
unfolding copied
copied_short s n lt =
    let more : suc n - length s ≡ suc (n - length s) = omega arith in
    str_ncpy_short [] s n lt
    ∙ append-nil (s ++ replicate (suc n - length s) 0)
    ∙ ap (λ (k : ℕ). s ++ replicate k 0) more

pub copied_full : (s : Bytes) (n : ℕ) → length s ≡ n → 0 < n → copied s n ≡ s
unfolding copied
copied_full s zero e some_room = elim some_room [ ]
copied_full s (suc n) e some_room =
    str_ncpy_long [] s (suc n) (omega arith)
    ∙ append-nil (take (suc n) s)
    ∙ take_all (suc n) s (omega arith)

pub copied-AreBytes :
    (s : Bytes) (n : ℕ) → length s ≤ n → 0 < n → AreBytes s → AreBytes (copied s n)
copied-AreBytes s n le some_room h = elim (dec_lt (length s) n) [
  | yes short ↦ rw (copied_short s n short) (
      All-append (λ c. c < 256) s (0 ∷ replicate (n - length s) 0) h
        (omega arith, zeros-AreBytes (n - length s)))
  | no full ↦ rw (copied_full s n (omega arith) some_room) h
]

cstr-take :
    (s rest : Bytes) (n : ℕ) → IsCString s → length s < n → cstr (take n (s ++ 0 ∷ rest)) ≡ s
unfolding cstr
cstr-take s rest zero h lt = absurd (omega arith)
cstr-take [] rest (suc n) h lt = refl
cstr-take (c ∷ s) rest (suc n) h lt = ground (arith, cstr-take s rest n h.1)

cstr_whole : (s : Bytes) → IsCString s → cstr s ≡ s
unfolding cstr
cstr_whole [] h = refl
cstr_whole (c ∷ s) h = ground (arith, cstr_whole s h.1)

-- A field that a name has been copied into reads as the name.
pub cstr-copied :
    (s : Bytes) (n : ℕ) → IsCString s → length s ≤ n → 0 < n → cstr (take n (copied s n)) ≡ s
cstr-copied s n h le some_room = elim (dec_lt (length s) n) [
  | yes short ↦ rw (copied_short s n short) (cstr-take s (replicate (n - length s) 0) n h short)
  | no full ↦
      rw (copied_full s n (omega arith) some_room)
        (ap cstr (take_all n s (omega arith)) ∙ cstr_whole s h)
]

-- The copy fills the field, and overruns it by a byte if the name is shorter.
pub length-copied :
    (s : Bytes) (n : ℕ)
    → length s ≤ n
    → 0 < n
    → (n ≤ length (copied s n)) × (length (copied s n) ≤ suc n)
length-copied s n le some_room = elim (dec_lt (length s) n) [
  | yes short ↦ rw (copied_short s n short) (
      omega (
        arith,
        length-append s (0 ∷ replicate (n - length s) 0),
        length-replicate {A = ℕ} (n - length s) 0,
      ))
  | no full ↦ rw (copied_full s n (omega arith) some_room) (omega arith)
]
