-- ===== src/Deflate/Inflate.antt =====
-- include/deflate.h: `inflate_to_fd`. The loops over blocks and over symbols have no bound of their
-- own: they run on fuel, and `stuck` says that it ran out.
pub mod Endless
use qoot.Base.{
  ℕ, zero, suc, ◌+◌, ◌-◌, ◌*◌, ◌%◌, ◌^◌, Bool, true, false, not, List, [], ◌∷◌, ◌++◌, Option, none,
  some, Bytes, length, get_or, set, take, drop, replicate, ltb, leb, ◌==◌, if◌then◌else◌,
}
use qoot.Deflate.{Bits, Huff, inf_bits_init, inf_bits_read, inf_huff_build, inf_huff_decode}
use qoot.Deflate.Output.{
  Result, done, error, stuck, ◌>>=◌, Writer, Out, inf_flush, inf_emit, emit_all, copy_match,
}
use qoot.Deflate.Trees.{
  inf_len_base, inf_len_extra, inf_dist_base, inf_dist_extra, fixed_lengths, dynamic_trees,
}

-- What `inflate_to_fd` keeps from block to block; the trees are not initialised before the first.
pub record Inflate (S : Type 0) : Type 0 where
  pub bits : Bits
  pub out : Out S
  pub lit_tree : Huff
  pub dist_tree : Huff

module _ (w : Writer) where
  -- A length and distance pair, behind the decoding of the length symbol.
  unfoldable pub match_symbol : ℕ → Huff → Bits → Out w.State → Result (Bool × (Bits × Out w.State))
  match_symbol len_idx dist_tree bits out =
      let extra = inf_bits_read bits (get_or inf_len_extra len_idx 0) in
      let len = get_or inf_len_base len_idx 0 + extra.0 in
      let d = inf_huff_decode extra.1 dist_tree in
      if ltb 28 len_idx then error else elim d.0 as (λ _. Result (Bool × (Bits × Out w.State))) [
        | none ↦ error
        | some dist_sym ↦
            let more = inf_bits_read d.1 (get_or inf_dist_extra dist_sym 0) in
            let distance = get_or inf_dist_base dist_sym 0 + more.0 in
            if ltb 29 dist_sym
            then error
            else copy_match w len distance out >>= λ out'. done (false, (more.1, out'))
      ]

  -- The body of the loop over the symbols: whether the block has ended, and the new state.
  unfoldable pub next_symbol :
      Huff → Huff → Bits → Out w.State → Result (Bool × (Bits × Out w.State))
  next_symbol lit_tree dist_tree bits out =
      let r = inf_huff_decode bits lit_tree in
      elim r.0 as (λ _. Result (Bool × (Bits × Out w.State))) [
        | none ↦ error
        | some sym ↦
            if ltb sym 256
            then (inf_emit w out (sym % 256) >>= λ out'. done (false, (r.1, out')))
            else if sym == 256
            then done (true, (r.1, out))
            else match_symbol (sym - 257) dist_tree r.1 out
      ]

  -- `for (;;)`
  unfoldable pub symbol_loop : ℕ → Huff → Huff → Bits → Out w.State → Result (Bits × Out w.State)
  symbol_loop zero lit_tree dist_tree bits out = stuck
  symbol_loop (suc f) lit_tree dist_tree bits out =
      next_symbol lit_tree dist_tree bits out >>= λ (ended, (bits', out')).
      let more = symbol_loop f lit_tree dist_tree bits' out' in
      if ended then done (bits', out') else more

  unfoldable pub stored_block : Bits → Out w.State → Result (Bits × Out w.State)
  stored_block bits out =
      let len = get_or bits.src 0 0 + get_or bits.src 1 0 * 2 ^ 8 in
      let rest = drop 4 bits.src in
      if ltb (length bits.src) 4
      then error
      else if ltb (length rest) len
      then error
      else emit_all w out (take len rest) >>= λ out'.
          done (record { src = drop len rest; buf = 0; cnt = 0 }, out')

  -- The trees of a block of type 1 or 2, and its symbols.
  unfoldable pub coded_block : ℕ → Huff → ℕ → Bits → Inflate w.State → Result (Inflate w.State)
  coded_block f junk btype bits s =
      let trees : Result (Huff × Huff × Bits) =
        if btype == 1
        then done (
          inf_huff_build s.lit_tree fixed_lengths,
          inf_huff_build s.dist_tree (replicate 32 5),
          bits,
        )
        else dynamic_trees junk s.lit_tree s.dist_tree bits in
      trees >>= λ (lit_tree, dist_tree, bits').
      symbol_loop f lit_tree dist_tree bits' s.out >>= λ (bits'', out').
      done record { bits = bits''; out = out'; lit_tree = lit_tree; dist_tree = dist_tree }

  -- The body of the `do`: `bfinal`, and the state behind the block.
  unfoldable pub inflate_block : ℕ → Huff → Inflate w.State → Result (Bool × Inflate w.State)
  inflate_block f junk s =
      let final = inf_bits_read s.bits 1 in
      let btype = inf_bits_read final.1 2 in
      let bfinal = not (final.0 == 0) in
      if btype.0 == 0
      then (stored_block btype.1 s.out >>= λ (bits', out'). done (
        bfinal,
        record { bits = bits'; out = out'; lit_tree = s.lit_tree; dist_tree = s.dist_tree },
      ))
      else if ltb btype.0 3
      then (coded_block f junk btype.0 btype.1 s >>= λ s'. done (bfinal, s'))
      else error

  unfoldable pub block_loop : ℕ → ℕ → Huff → Inflate w.State → Result (Inflate w.State)
  block_loop zero f junk s = stuck
  block_loop (suc g) f junk s = inflate_block f junk s >>= λ (bfinal, s').
      let more = block_loop g f junk s' in if bfinal then done s' else more

  -- The returned number of bytes, and the descriptor. `junk` is what the three trees hold at first;
  -- `g` bounds the blocks and `f` the symbols of a block.
  unfoldable pub inflate_to_fd : ℕ → ℕ → Huff → Bytes → w.State → Result (ℕ × w.State)
  inflate_to_fd g f junk src out_fd =
      block_loop g f junk record {
        bits = inf_bits_init src;
        out = record {
          fd = out_fd;
          outbuf = [];
          window = replicate 32768 0;
          winpos = 0;
          total = 0;
          crc = 0xFFFFFFFF;
        };
        lit_tree = junk;
        dist_tree = junk;
      }
      >>= λ s. inf_flush w s.out >>= λ out. done (out.total, out.fd)
