-- ===== src/Tests/Compression.antt =====
-- include/deflate.h: runs and witnesses.
use qoot.Base.{ℕ, ◌≡◌, refl, [], ◌∷◌, ◌++◌, some, Bytes, codes, replicate, length-replicate, arith}
use qoot.Base.Int.{ℤ, pos}
use qoot.Deflate.{
  Bits, Huff, crc32_buf, crc32_loop, crc32_update, decode_loop, count_lengths, place_symbols,
  offsets_from, inf_bits_init, inf_bits_read, inf_huff_build, inf_huff_decode,
}
use qoot.Deflate.Gzip.{
  Header, gzip_parse_header, IsDataLen, data_start, header_at, gzip_parse_header-IsDataLen,
}
use qoot.Deflate.Output.{
  done, stuck, Writer, Out, copy_match, emit_all, inf_emit, inf_flush, write_loop,
}
use qoot.Deflate.Output.Window.{Appends, Wrote, Fails, Gives, IsOut, repeat_back, copy_match-Gives}
use qoot.Deflate.Inflate.{
  symbol_loop, inflate_to_fd, block_loop, inflate_block, stored_block, coded_block, next_symbol,
}
use qoot.Deflate.Inflate.Endless.{Progresses, exhausted, symbol_loop_endless}

crc_check : crc32_buf (codes "123456789") ≡ 0xCBF43926
unfolding crc32_buf crc32_update
crc_check = refl

-- A pipe that takes one byte at a time.
abbrev take_one : Bytes → Bytes → ℤ × Bytes
take_one s [] = (pos 0, s)
take_one s (c ∷ p) = (pos 1, s ++ c ∷ [])

abbrev pipe : Writer
pipe = record { State = Bytes; sys_write = take_one }

pipe-Wrote : (s p : Bytes) → Wrote (λ s. s) s p (take_one s p).0 (take_one s p).1
pipe-Wrote s [] = tt
pipe-Wrote s (c ∷ p) = (omega arith, refl)

abbrev pipe_appends : Appends pipe
pipe_appends = record { written = λ s. s; writes = pipe-Wrote }

abbrev no_tree : Huff
no_tree = record { count = replicate 16 0; symbol = 77 ∷ replicate 287 0 }

-- A stored block of three bytes.
stored_abc :
    inflate_to_fd pipe 1 1 no_tree (1 ∷ 3 ∷ 0 ∷ 252 ∷ 255 ∷ codes "abc") [] ≡ done (3, codes "abc")
unfolding inflate_to_fd block_loop inflate_block inf_bits_read inf_bits_init stored_block emit_all
    inf_emit inf_flush write_loop
stored_abc = refl

-- A block of fixed codes.
fixed_a : inflate_to_fd pipe 1 5 no_tree (0x4b ∷ 0x04 ∷ 0 ∷ []) [] ≡ done (1, codes "a")
unfolding inflate_to_fd block_loop inflate_block inf_bits_read inf_bits_init coded_block symbol_loop
    next_symbol inf_huff_decode decode_loop inf_huff_build count_lengths place_symbols offsets_from
    inf_emit inf_flush write_loop
fixed_a = refl

abbrev one_byte : Bits
one_byte = record { src = 0xB5 ∷ []; buf = 0; cnt = 0 }

abbrev two_zeros : Bits
two_zeros = record { src = 0 ∷ 0 ∷ []; buf = 0; cnt = 0 }

-- The name ends in the last eight bytes.
abbrev short_file : Bytes
short_file = 31 ∷ 139 ∷ 8 ∷ 8 ∷ 0 ∷ 0 ∷ 0 ∷ 0 ∷ 0 ∷ 3 ∷ (codes "abcdef" ++ 0 ∷ 5 ∷ [])

abbrev short_header : Header
short_header = record {
  data_offset = 17;
  data_len = 0xFFFFFFFFFFFFFFF9;
  orig_crc = 0x64636261;
  orig_size = 0x05006665;
}

short_accepted : gzip_parse_header short_file ≡ some short_header
unfolding gzip_parse_header data_start header_at
short_accepted = refl

gzip_parse_header_example : IsDataLen 18 short_header
gzip_parse_header_example =
    gzip_parse_header-IsDataLen short_file {h = short_header} (omega arith) short_accepted

abbrev after_a : Out Bytes
after_a = record {
  fd = [];
  outbuf = codes "a";
  window = 97 ∷ replicate 32767 0;
  winpos = 1;
  total = 1;
  crc = crc32_loop 0xFFFFFFFF (codes "a");
}

after_a-IsOut : IsOut pipe pipe_appends (codes "a") after_a
after_a-IsOut = record {
  output = refl;
  counted = refl;
  position = refl;
  checksum = refl;
  window_size = omega (arith, length-replicate {A = ℕ} 32767 0);
  recent = λ i lt near. let first : i ≡ 0 = omega arith in rw first refl;
}

copy_match_example :
    Gives
      (Fails pipe)
      (IsOut pipe pipe_appends (repeat_back 5 1 (codes "a")))
      (copy_match pipe 5 1 after_a)
copy_match_example =
    copy_match-Gives pipe pipe_appends 5 1 (codes "a") after_a (omega arith) (omega arith)
      (omega arith) (omega arith) after_a-IsOut

-- Every bit that is missing stands for the byte 97.
abbrev one_code : Huff
one_code = record { count = 0 ∷ 1 ∷ replicate 14 0; symbol = 97 ∷ [] }

pipe-Progresses : Progresses pipe
pipe-Progresses s c p = refl

symbol_loop_example : symbol_loop pipe 1000 one_code one_code (exhausted 0) after_a ≡ stuck
symbol_loop_example =
    symbol_loop_endless pipe one_code one_code 0 0 pipe-Progresses (omega arith) (omega arith)
      (omega arith) 1000 after_a
