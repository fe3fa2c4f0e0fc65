-- ===== src/Io/Mode.antt =====
-- include/io.h: `format_mode`, the `ls -l` text of a mode. The masks are those of include/types.h;
-- `mode & 2^k` is written as the k-th binary digit.
use qoot.Base.{
  ℕ, ◌+◌, ◌*◌, ◌/◌, ◌%◌, ◌^◌, ◌≡◌, refl, [], ◌∷◌, Bool, true, false, Bytes, arith, ◌==◌, Bool-cases,
  inl, inr, if◌then◌else◌,
}

abbrev bit : ℕ → ℕ → Bool
bit mode k = mode / 2 ^ k % 2 == 1

-- `(mode & S_IFMT)`, in units of 4096
abbrev pub file_type : ℕ → ℕ
file_type mode = mode / 4096 % 16

type_char : ℕ → ℕ
type_char mode =
    if file_type mode == 4
    then b'd'
    else if file_type mode == 10
    then b'l'
    else if file_type mode == 2
    then b'c'
    else if file_type mode == 6
    then b'b'
    else if file_type mode == 1
    then b'p'
    else if file_type mode == 12
    then b's'
    else b'-'

flag_char : Bool → ℕ → ℕ
flag_char set letter = if set then letter else b'-'

-- The execute column, with the set-id or sticky bit in its letter.
exec_char : Bool → Bool → ℕ → ℕ → ℕ
exec_char exec special lower upper =
    if exec then (if special then lower else b'x') else (if special then upper else b'-')

unfoldable pub format_mode : ℕ → Bytes
unfolding type_char flag_char exec_char
format_mode mode =
    type_char mode
    ∷ flag_char (bit mode 8) b'r'
    ∷ flag_char (bit mode 7) b'w'
    ∷ exec_char (bit mode 6) (bit mode 11) b's' b'S'
    ∷ flag_char (bit mode 5) b'r'
    ∷ flag_char (bit mode 4) b'w'
    ∷ exec_char (bit mode 3) (bit mode 10) b's' b'S'
    ∷ flag_char (bit mode 2) b'r'
    ∷ flag_char (bit mode 1) b'w'
    ∷ exec_char (bit mode 0) (bit mode 9) b't' b'T'
    ∷ []

columns :
    (mode : ℕ)
    → format_mode mode
      ≡ type_char mode
        ∷ flag_char (bit mode 8) b'r'
        ∷ flag_char (bit mode 7) b'w'
        ∷ exec_char (bit mode 6) (bit mode 11) b's' b'S'
        ∷ flag_char (bit mode 5) b'r'
        ∷ flag_char (bit mode 4) b'w'
        ∷ exec_char (bit mode 3) (bit mode 10) b's' b'S'
        ∷ flag_char (bit mode 2) b'r'
        ∷ flag_char (bit mode 1) b'w'
        ∷ exec_char (bit mode 0) (bit mode 9) b't' b'T'
        ∷ []
unfolding format_mode
columns mode = refl

-- The twelve permission bits that a reader of the text recovers.
abbrev value : Bool → ℕ
value true = 1
value false = 0

abbrev flag_of : ℕ → ℕ → ℕ
flag_of letter c = if c == letter then 1 else 0

abbrev exec_of : ℕ → ℕ → ℕ
exec_of lower c = if c == b'x' then 1 else if c == lower then 1 else 0

abbrev special_of : ℕ → ℕ → ℕ → ℕ
special_of lower upper c = if c == lower then 1 else if c == upper then 1 else 0

abbrev permissions : Bytes → ℕ
permissions (t ∷ r1 ∷ w1 ∷ x1 ∷ r2 ∷ w2 ∷ x2 ∷ r3 ∷ w3 ∷ x3 ∷ rest) =
    special_of b's' b'S' x1 * 2048
    + special_of b's' b'S' x2 * 1024
    + special_of b't' b'T' x3 * 512
    + flag_of b'r' r1 * 256
    + flag_of b'w' w1 * 128
    + exec_of b's' x1 * 64
    + flag_of b'r' r2 * 32
    + flag_of b'w' w2 * 16
    + exec_of b's' x2 * 8
    + flag_of b'r' r3 * 4
    + flag_of b'w' w3 * 2
    + exec_of b't' x3
permissions text = 0

read-value : (set : Bool) → flag_of b'r' (flag_char set b'r') ≡ value set
unfolding flag_char
read-value set = ground arith

write-value : (set : Bool) → flag_of b'w' (flag_char set b'w') ≡ value set
unfolding flag_char
write-value set = ground arith

exec-value :
    (exec special : Bool)
    → (exec_of b's' (exec_char exec special b's' b'S') ≡ value exec)
      × (special_of b's' b'S' (exec_char exec special b's' b'S') ≡ value special)
      × (exec_of b't' (exec_char exec special b't' b'T') ≡ value exec)
      × (special_of b't' b'T' (exec_char exec special b't' b'T') ≡ value special)
unfolding exec_char
exec-value exec special = ground arith

bit-value : (mode k : ℕ) → value (bit mode k) ≡ mode / 2 ^ k % 2
bit-value mode k = elim (Bool-cases (bit mode k)) [
  | inl one ↦ rw one (ground arith)
  | inr zero_bit ↦ rw zero_bit (ground arith)
]

-- The text of a mode tells all twelve permission bits.
permissions-format_mode : (mode : ℕ) → permissions (format_mode mode) ≡ mode % 4096
permissions-format_mode mode =
    let (x1, s1, t1, u1) = exec-value (bit mode 6) (bit mode 11) in
    let (x2, s2, t2, u2) = exec-value (bit mode 3) (bit mode 10) in
    let (x3, s3, t3, u3) = exec-value (bit mode 0) (bit mode 9) in
    rw columns (
      omega (
        arith,
        s1,
        s2,
        u3,
        x1,
        x2,
        t3,
        read-value (bit mode 8),
        write-value (bit mode 7),
        read-value (bit mode 5),
        write-value (bit mode 4),
        read-value (bit mode 2),
        write-value (bit mode 1),
        bit-value mode 0,
        bit-value mode 1,
        bit-value mode 2,
        bit-value mode 3,
        bit-value mode 4,
        bit-value mode 5,
        bit-value mode 6,
        bit-value mode 7,
        bit-value mode 8,
        bit-value mode 9,
        bit-value mode 10,
        bit-value mode 11,
      ))
