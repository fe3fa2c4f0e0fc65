-- ===== src/Printf/Widths.antt =====
-- tools/printf.c: the width of a field, and numbers with zeros before them.

use Prim.Native.Nat.{max}
use qoot.Base.{
  ◌<◌, ℕ, zero, suc, ◌+◌, ◌%◌, ◌^◌, ◌≡◌, ◌≢◌, refl, ap, sym, ◌∙◌, true, false, [], ◌∷◌, ◌++◌, Bytes,
  length, length-append, replicate, length-replicate, All, All-append, arith, ◌==◌, ne→==,
}
use qoot.Base.Int.{ℤ, pos, negsuc, signed64}
use qoot.Printf.{put_padded_num, pad_of}
use qoot.Str.{peek}
use qoot.Str.Digits.{long_to_str, ulong_to_str}
use qoot.Str.Parse.{str_to_long, decimal_loop}
use qoot.Str.RoundTrip.{IsLong, str_to_long-long_to_str, str_to_long_pos, ulong_to_str-no_minus}

zeros_read :
    (n : ℕ) (s : Bytes)
    → decimal_loop (2 ^ 64) (replicate n b'0' ++ s) 0 ≡ decimal_loop (2 ^ 64) s 0
unfolding decimal_loop
zeros_read zero s = refl
zeros_read (suc n) s = zeros_read n s

not_minus : (s : Bytes) → All (λ c. c ≢ b'-') s → (peek s == b'-') ≡ false
not_minus [] h = refl
not_minus (c ∷ s) h = ne→== c b'-' h.0

zeros_free : (n : ℕ) → All (λ (c : ℕ). c ≢ b'-') (replicate n b'0')
zeros_free zero = tt
zeros_free (suc n) = (omega arith, zeros_free n)

wide :
    (front text : Bytes) (width n : ℕ)
    → n ≡ length front + length text
    → width < 2 ^ 31
    → length (front ++ (replicate (pad_of width n) b'0' ++ text)) ≡ max width n
wide front text width n e small = ground (
  arith,
  length-append front (replicate (pad_of width n) b'0' ++ text),
  length-append (replicate (pad_of width n) b'0') text,
  length-replicate {A = ℕ} (pad_of width n) b'0',
)

-- A `long` that is written with zeros before it takes its width exactly, or as many bytes as it has
-- without zeros if these are more, and is read back; the width is below 2 ^ 31.
pub str_to_long-put_padded_num :
    (i : ℤ) (width : ℕ)
    → IsLong i
    → width < 2 ^ 31
    → (length (put_padded_num (long_to_str i).0 width false true)
        ≡ max width (length (long_to_str i).0))
      × (str_to_long (put_padded_num (long_to_str i).0 width false true) ≡ i)
unfolding put_padded_num str_to_long long_to_str
str_to_long-put_padded_num i width fits small = (room i, padded i ∙ str_to_long-long_to_str i fits)
  where
    room :
        (i : ℤ)
        → length (put_padded_num (long_to_str i).0 width false true)
          ≡ max width (length (long_to_str i).0)
    room (pos n) =
        let text = (ulong_to_str n).0 in
        rw (not_minus text (ulong_to_str-no_minus n))
          (wide [] text width (length text) (omega arith) small)
    room (negsuc n) =
        let text = (ulong_to_str (suc n % 2 ^ 64)).0 in
        let longer : length text + 1 ≡ suc (length text) = omega arith in
        wide (b'-' ∷ []) text width (length text + 1) (omega arith) small ∙ ap (max width) longer

    padded :
        (i : ℤ)
        → str_to_long (put_padded_num (long_to_str i).0 width false true)
          ≡ str_to_long (long_to_str i).0
    padded (pos n) =
        let text = (ulong_to_str n).0 in
        let free = ulong_to_str-no_minus n in
        let zeros = replicate (pad_of width (length text)) b'0' in
        rw (not_minus text free) (
          str_to_long_pos (zeros ++ text)
            (All-append (λ c. c ≢ b'-') zeros text (zeros_free (pad_of width (length text))) free)
          ∙ ap signed64 (zeros_read (pad_of width (length text)) text)
          ∙ sym (str_to_long_pos text free))
    padded (negsuc n) = rw (zeros_read _ (ulong_to_str (suc n % 2 ^ 64)).0)
