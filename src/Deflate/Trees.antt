-- ===== src/Deflate/Trees.antt =====
-- include/deflate.h: the tables of deflate, and the code lengths of a block of dynamic codes.
use qoot.Base.{
  ℕ, zero, suc, ◌+◌, ◌-◌, ◌%◌, List, [], ◌∷◌, ◌++◌, none, some, Bytes, get_or, set, take, drop,
  replicate, ltb, ◌==◌, if◌then◌else◌,
}
use qoot.Deflate.{Bits, Huff, inf_bits_read, inf_huff_build, inf_huff_decode}
use qoot.Deflate.Output.{Result, done, error, stuck, ◌>>=◌}

abbrev pub inf_len_base : List ℕ
inf_len_base =
    3 ∷ 4 ∷ 5 ∷ 6 ∷ 7 ∷ 8 ∷ 9 ∷ 10 ∷ 11 ∷ 13 ∷ 15 ∷ 17 ∷ 19 ∷ 23 ∷ 27 ∷ 31 ∷ 35 ∷ 43 ∷ 51 ∷ 59 ∷ 67
    ∷ 83 ∷ 99 ∷ 115 ∷ 131 ∷ 163 ∷ 195 ∷ 227 ∷ 258 ∷ []

abbrev pub inf_len_extra : List ℕ
inf_len_extra =
    0 ∷ 0 ∷ 0 ∷ 0 ∷ 0 ∷ 0 ∷ 0 ∷ 0 ∷ 1 ∷ 1 ∷ 1 ∷ 1 ∷ 2 ∷ 2 ∷ 2 ∷ 2 ∷ 3 ∷ 3 ∷ 3 ∷ 3 ∷ 4 ∷ 4 ∷ 4 ∷ 4
    ∷ 5 ∷ 5 ∷ 5 ∷ 5 ∷ 0 ∷ []

abbrev pub inf_dist_base : List ℕ
inf_dist_base =
    1 ∷ 2 ∷ 3 ∷ 4 ∷ 5 ∷ 7 ∷ 9 ∷ 13 ∷ 17 ∷ 25 ∷ 33 ∷ 49 ∷ 65 ∷ 97 ∷ 129 ∷ 193 ∷ 257 ∷ 385 ∷ 513 ∷ 769
    ∷ 1025 ∷ 1537 ∷ 2049 ∷ 3073 ∷ 4097 ∷ 6145 ∷ 8193 ∷ 12289 ∷ 16385 ∷ 24577 ∷ []

abbrev pub inf_dist_extra : List ℕ
inf_dist_extra =
    0 ∷ 0 ∷ 0 ∷ 0 ∷ 1 ∷ 1 ∷ 2 ∷ 2 ∷ 3 ∷ 3 ∷ 4 ∷ 4 ∷ 5 ∷ 5 ∷ 6 ∷ 6 ∷ 7 ∷ 7 ∷ 8 ∷ 8 ∷ 9 ∷ 9 ∷ 10 ∷ 10
    ∷ 11 ∷ 11 ∷ 12 ∷ 12 ∷ 13 ∷ 13 ∷ []

abbrev pub inf_cl_order : List ℕ
inf_cl_order =
    16 ∷ 17 ∷ 18 ∷ 0 ∷ 8 ∷ 7 ∷ 9 ∷ 6 ∷ 10 ∷ 5 ∷ 11 ∷ 4 ∷ 12 ∷ 3 ∷ 13 ∷ 2 ∷ 14 ∷ 1 ∷ 15 ∷ []

-- The code lengths of a block of fixed codes.
abbrev pub fixed_lengths : Bytes
fixed_lengths = replicate 144 8 ++ (replicate 112 9 ++ (replicate 24 7 ++ replicate 8 8))

-- `for (int i = 0; i < hclen; i++) cl_lengths[inf_cl_order[i]] = inf_bits_read(&bits, 3);`
unfoldable pub read_cl_lengths : ℕ → List ℕ → Bits → Bytes → Bytes × Bits
read_cl_lengths zero order bits cl_lengths = (cl_lengths, bits)
read_cl_lengths (suc n) [] bits cl_lengths = (cl_lengths, bits)
read_cl_lengths (suc n) (o ∷ order) bits cl_lengths =
    let r = inf_bits_read bits 3 in read_cl_lengths n order r.1 (set cl_lengths o (r.0 % 256))

-- `while (rep-- > 0 && idx < total) all_lengths[idx++] = length;`
unfoldable pub repeat_length : ℕ → ℕ → ℕ → Bytes → ℕ → Bytes × ℕ
repeat_length zero len total all_lengths idx = (all_lengths, idx)
repeat_length (suc rep) len total all_lengths idx =
    let more = repeat_length rep len total (set all_lengths idx len) (idx + 1) in
    if ltb idx total then more else (all_lengths, idx)

-- The body of the loop over the code lengths, behind the decoding of `sym`.
unfoldable pub length_symbol : ℕ → ℕ → Bits → Bytes → ℕ → Result (Bits × (Bytes × ℕ))
length_symbol sym total bits all_lengths idx =
    let two = inf_bits_read bits 2 in
    let three = inf_bits_read bits 3 in
    let seven = inf_bits_read bits 7 in
    if ltb sym 16
    then done (bits, (set all_lengths idx sym, idx + 1))
    else if sym == 16
    then (if idx == 0
        then error
        else done (
          two.1,
          repeat_length (two.0 + 3) (get_or all_lengths (idx - 1) 0) total all_lengths idx,
        ))
    else if sym == 17
    then done (three.1, repeat_length (three.0 + 3) 0 total all_lengths idx)
    else if sym == 18
    then done (seven.1, repeat_length (seven.0 + 11) 0 total all_lengths idx)
    else error

-- `while (idx < total)`, on fuel; every round advances `idx`.
unfoldable pub lengths_loop : ℕ → Huff → ℕ → Bits → Bytes → ℕ → Result (Bytes × Bits)
lengths_loop zero cl_tree total bits all_lengths idx = stuck
lengths_loop (suc f) cl_tree total bits all_lengths idx =
    let r = inf_huff_decode bits cl_tree in
    let more = elim r.0 as (λ _. Result (Bytes × Bits)) [
      | none ↦ error
      | some sym ↦ length_symbol sym total r.1 all_lengths idx >>= λ (bits', (all', idx')).
          lengths_loop f cl_tree total bits' all' idx'
    ] in
    if ltb idx total then more else done (all_lengths, bits)

-- The two trees of a block of dynamic codes. `lit_tree` and `dist_tree` are built in place, and
-- `cl_tree` is not initialised.
unfoldable pub dynamic_trees : Huff → Huff → Huff → Bits → Result (Huff × Huff × Bits)
dynamic_trees cl_tree lit_tree dist_tree bits =
    let five = inf_bits_read bits 5 in
    let hlit = five.0 + 257 in
    let five' = inf_bits_read five.1 5 in
    let hdist = five'.0 + 1 in
    let four = inf_bits_read five'.1 4 in
    let cl = read_cl_lengths (four.0 + 4) inf_cl_order four.1 (replicate 19 0) in
    lengths_loop (hlit + hdist + 1) (inf_huff_build cl_tree cl.0) (hlit + hdist) cl.1
      (replicate 320 0) 0
    >>= λ (all_lengths, bits'). done (
      inf_huff_build lit_tree (take hlit all_lengths),
      inf_huff_build dist_tree (take hdist (drop hlit all_lengths)),
      bits',
    )
