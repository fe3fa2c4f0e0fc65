-- ===== src/Deflate/Unused.antt =====
-- include/deflate.h: the tables that `inf_huff_build` makes where some symbol has no code.
use native.Mathlib.Nat.{pow-suc}
use qoot.Base.Bits.{mod_twice, pow_pos}
use qoot.Base.{
  ℕ, zero, suc, ◌+◌, ◌-◌, ◌*◌, ◌/◌, ◌%◌, ◌^◌, ◌<◌, ◌≤◌, ◌≡◌, refl, ap, sym, subst, ◌∙◌, false, inl,
  inr, List, [], ◌∷◌, some, Bytes, length, get_or, set, replicate, sum, All, All-set, All-get_or,
  All-imply, get_or-set_other, length-set, arith, Bool-cases, ltb, ◌==◌, if◌then◌else◌,
}
use qoot.Deflate.{
  Bits, Huff, count_lengths, offsets_from, place_symbols, inf_huff_build, decode_loop,
  inf_huff_decode, inf_bits_read,
}
use qoot.Deflate.Counts.{occurrences, length-count_lengths, get_or-count_lengths, zero_counts}
use qoot.Deflate.Reading.{IsReader, bits_left, stream, inf_bits_read_next}

-- The offsets lie between the first of them and the number of symbols counted.
offsets_from-All :
    (offset : ℕ) (count : List ℕ)
    → offset + sum count < 65536
    → All (λ o. (offset ≤ o) × (o ≤ offset + sum count)) (offsets_from offset count)
unfolding offsets_from
offsets_from-All offset [] h = tt
offsets_from-All offset (c ∷ count) h =
    let small : (offset + c) % 65536 ≡ offset + c = omega arith in
    (
      (omega arith, omega arith),
      rw small (
          All-imply {P = λ o. (offset + c ≤ o) × (o ≤ offset + c + sum count)}
            {Q = λ o. (offset ≤ o) × (o ≤ offset + (c + sum count))}
            (offsets_from (offset + c) count) (λ o (lo, hi). (omega arith, omega arith))
            (offsets_from-All (offset + c) count (omega arith))),
    )

length-offsets_from :
    (offset : ℕ) (count : List ℕ) → length (offsets_from offset count) ≡ length count
unfolding offsets_from
length-offsets_from offset [] = refl
length-offsets_from offset (c ∷ count) = ap suc (length-offsets_from ((offset + c) % 65536) count)

-- The offsets of the lengths 1 to 15 while `room` symbols are to be placed.
abbrev Behind : ℕ → List ℕ → Type 0
Behind room offsets = All (λ o. (0 < o) × (o + room < 65536)) offsets

Behind-suc : (room : ℕ) (offsets : List ℕ) → Behind (suc room) offsets → Behind room offsets
Behind-suc room offsets =
    All-imply {P = λ o. (0 < o) × (o + suc room < 65536)} {Q = λ o. (0 < o) × (o + room < 65536)}
      offsets (λ o (lo, hi). (lo, omega arith))

-- No symbol is put at the first place.
place_symbols-first :
    (i : ℕ) (lengths : Bytes) (first : ℕ) (offsets symbol : List ℕ)
    → All (λ l. l < 16) lengths
    → length offsets ≡ 15
    → Behind (length lengths) offsets
    → get_or (place_symbols i lengths (first ∷ offsets) symbol) 0 0 ≡ get_or symbol 0 0
unfolding place_symbols
place_symbols-first i [] first offsets symbol small len b = refl
place_symbols-first i (zero ∷ lengths) first offsets symbol small len b =
    place_symbols-first (i + 1) lengths first offsets symbol small.1 len
      (Behind-suc (length lengths) offsets b)
place_symbols-first i (suc l ∷ lengths) first offsets symbol small len b =
    let o = get_or offsets l 0 in
    let at : (0 < o) × (o + suc (length lengths) < 65536) =
      All-get_or (λ o. (0 < o) × (o + suc (length lengths) < 65536)) offsets l 0
        (omega (arith, small.0, len)) b in
    let next : (o + 1) % 65536 ≡ o + 1 = omega arith in
    let b' : Behind (length lengths) (set offsets l ((o + 1) % 65536)) =
      All-set (λ o. (0 < o) × (o + length lengths < 65536)) offsets l (omega arith, omega arith)
        (Behind-suc (length lengths) offsets b) in
    let coded : (suc l == 0) ≡ false = ground arith in
    rw (coded, if◌then◌else◌)
      (place_symbols-first (i + 1) lengths first (set offsets l ((o + 1) % 65536))
          (set symbol o (i % 65536)) small.1 (length-set offsets l _ ∙ len) b'
        ∙ get_or-set_other symbol o 0 (i % 65536) 0 (omega arith))

-- The codes of a length of which there are none are passed over; zeros reach the first code.
decode_loop_zeros :
    (n k : ℕ) (h : Huff) (len : ℕ) (b : Bits)
    → k < n
    → 0 < get_or h.count (len + k) 0
    → IsReader b
    → n ≤ bits_left b
    → stream b % 2 ^ n ≡ 0
    → (decode_loop n h len b 0 0 0).0 ≡ some (get_or h.symbol 0 0)
unfolding decode_loop
decode_loop_zeros zero k h len b lt pos w left zeros = absurd (omega arith)
decode_loop_zeros (suc n) k h len b lt pos w left zeros =
    let p = 2 ^ n in
    let both : stream b / 2 % p * 2 + stream b % 2 ≡ 0 =
      sym (mod_twice (stream b) p (pow_pos n)) ∙ (rw (pow-suc 2 n) at zeros) in
    let (bit, stream', left', w') = inf_bits_read_next b 1 (omega arith) w (omega arith) in
    let zero_bit : (inf_bits_read b 1).0 ≡ 0 = omega arith in
    let b' = (inf_bits_read b 1).1 in
    rw zero_bit (elim (Bool-cases (ltb 0 (0 + get_or h.count len 0))) [
      | inl found ↦ rw (found, if◌then◌else◌) refl
      | inr absent ↦
          let here : get_or h.count len 0 ≡ 0 = ground arith in
          let later : (k == 0) ≡ false = elim (Bool-cases (k == 0)) [
            | inr behind ↦ behind
            | inl now ↦
                let same : len + k ≡ len = ground arith in
                let missing = ap (λ i. get_or h.count i 0) same in absurd (omega arith)
          ] in
          let place : len + k ≡ len + 1 + (k - 1) = ground arith in
          let pos' : 0 < get_or h.count (len + 1 + (k - 1)) 0 =
            subst (λ i. 0 < get_or h.count i 0) place pos in
          rw here (
            decode_loop_zeros n (k - 1) h (len + 1) b' (ground arith) pos' w' (omega arith)
              (ap (λ s. s % p) stream' ∙ omega arith))
    ])

first_kept :
    (count : List ℕ) (lengths : Bytes) (symbol : List ℕ)
    → length count ≡ 16
    → 0 < get_or count 0 0
    → sum count ≡ length lengths
    → length lengths < 32768
    → All (λ l. l < 16) lengths
    → get_or (place_symbols 0 lengths (offsets_from 0 count) symbol) 0 0 ≡ get_or symbol 0 0
unfolding offsets_from
first_kept [] lengths symbol len unused total few small = absurd (omega arith)
first_kept (c ∷ count) lengths symbol len unused total few small =
    let exact : (0 + c) % 65536 ≡ c = omega arith in
    let behind : Behind (length lengths) (offsets_from c count) =
      All-imply {P = λ o. (c ≤ o) × (o ≤ c + sum count)}
        {Q = λ o. (0 < o) × (o + length lengths < 65536)} (offsets_from c count)
        (λ o (lo, hi). (omega arith, omega arith)) (offsets_from-All c count (omega arith)) in
    rw exact (
      place_symbols-first 0 lengths 0 (offsets_from c count) symbol small
        (length-offsets_from c count ∙ omega arith) behind)

-- The first place of the table is not written where some symbol has no code.
inf_huff_build-first :
    (h : Huff) (lengths : Bytes)
    → All (λ l. l < 16) lengths
    → length lengths < 32768
    → 0 < occurrences 0 lengths
    → get_or (inf_huff_build h lengths).symbol 0 0 ≡ get_or h.symbol 0 0
unfolding inf_huff_build
inf_huff_build-first h lengths small few unused =
    let start = zero_counts (length lengths) (omega arith) in
    let count = count_lengths (replicate 16 0) lengths in
    let (zeros, total) = get_or-count_lengths (replicate 16 0) lengths 0 small start in
    elim (Bool-cases (get_or count 0 0 == length lengths % 65536)) [
      | inl all_unused ↦ rw (all_unused, if◌then◌else◌) refl
      | inr some_used ↦
          rw (some_used, if◌then◌else◌)
            (first_kept count lengths h.symbol (length-count_lengths (replicate 16 0) lengths)
              (omega arith) (omega arith) few small)
    ]

inf_huff_build-count :
    (h : Huff) (lengths : Bytes)
    → (inf_huff_build h lengths).count ≡ count_lengths (replicate 16 0) lengths
unfolding inf_huff_build
inf_huff_build-count h lengths =
    elim (Bool-cases
      (get_or (count_lengths (replicate 16 0) lengths) 0 0 == length lengths % 65536)) [
        | inl all_unused ↦ rw (all_unused, if◌then◌else◌) refl
        | inr some_used ↦ rw (some_used, if◌then◌else◌) refl
      ]

-- Where some symbols have no code and others have one, the code of zeros, which stands for the
-- first symbol in the canonical order, is decoded to what the table held at its first place before
-- it was built. The tables of `inflate_to_fd` are not initialised before the first build.
inf_huff_decode_stale :
    (h : Huff) (lengths : Bytes) (b : Bits) (k : ℕ)
    → All (λ l. l < 16) lengths
    → length lengths < 32768
    → 0 < occurrences 0 lengths
    → k < 15
    → 0 < occurrences (1 + k) lengths
    → IsReader b
    → 15 ≤ bits_left b
    → stream b % 2 ^ 15 ≡ 0
    → (inf_huff_decode b (inf_huff_build h lengths)).0 ≡ some (get_or h.symbol 0 0)
unfolding inf_huff_decode
inf_huff_decode_stale h lengths b k small few unused lt used w left zeros =
    let start = zero_counts (length lengths) (omega arith) in
    let (counted, _) = get_or-count_lengths (replicate 16 0) lengths (1 + k) small start in
    let present : 0 < get_or (inf_huff_build h lengths).count (1 + k) 0 =
      rw (inf_huff_build-count h lengths) (omega arith) in
    decode_loop_zeros 15 k (inf_huff_build h lengths) 1 b lt present w left zeros
    ∙ ap some (inf_huff_build-first h lengths small few unused)
