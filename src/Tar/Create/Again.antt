-- ===== src/Tar/Create/Again.antt =====
-- tools/tar.c: a file that is put into an archive and extracted from it.
use qoot.Base.{
  ℕ, zero, suc, ◌+◌, ◌%◌, ◌^◌, ◌<◌, ◌≤◌, ◌≡◌, ◌≢◌, inl, inr, refl, ap, sym, ◌∙◌, Bool, true, false,
  List, [], ◌∷◌, ◌++◌, append_assoc, Option, some, Bytes, length, length-replicate, take, replicate,
  get_or, arith, ltb, if◌then◌else◌, Bool-cases,
}
use qoot.Io.{Reader}
use qoot.Io.Mode.{file_type}
use qoot.Str.{IsCString, cstr}
use qoot.Tar.{field, tar_ulong_to_oct, tar_oct_to_ulong, tar_is_zero_block, tar_build_path}
use qoot.Tar.Create.{create_loop, tar_create_file}
use qoot.Tar.Create.Blocks.{create_loop-data_blocks}
use qoot.Tar.Extract.{Action, created, changed_mode, tar_mkdirs, mode_or, data_blocks, tar_extract}
use qoot.Tar.Extract.Data.{DeliversAll, zero_block, padded, block_writes}
use qoot.Tar.Extract.Single.{tar_extract_single}
use qoot.Tar.Header.{
  Stat, copied, stat_writes, type_writes, magic_writes, unsigned_header, signed, tar_write_header,
}
use qoot.Tar.Header.Checksum.{signed-spares}
use qoot.Tar.Header.Fits.{length-tar_ulong_to_oct}
use qoot.Tar.Header.Parts.{IsLink, stored_size}
use qoot.Tar.Header.Written.{
  unsigned_writes, write_all_at-append, get_or-field, tar_write_header-IsHeaderOf,
}
use qoot.Tar.Writes.{Write, write_all_at, length-write_all_at, field_written}

zero-get_or : (h : Bytes) (n : ℕ) → tar_is_zero_block h ≡ true → get_or h n 0 ≡ 0
unfolding tar_is_zero_block
zero-get_or [] n e = refl
zero-get_or (x ∷ h) zero e = ground arith
zero-get_or (x ∷ h) (suc n) e = ground (arith, zero-get_or h n)

zero-cstr : (h : Bytes) (n : ℕ) → tar_is_zero_block h ≡ true → cstr (take n h) ≡ []
unfolding tar_is_zero_block cstr
zero-cstr h zero e = refl
zero-cstr [] (suc n) e = refl
zero-cstr (x ∷ h) (suc n) e = ground arith

-- The path of a block of NULs is empty.
zero-tar_build_path : (h : Bytes) → tar_is_zero_block h ≡ true → tar_build_path h ≡ []
unfolding tar_build_path
zero-tar_build_path h e = rw (zero-get_or h 345 e) (zero-cstr h 100 e)

named-tar_is_zero_block : (h : Bytes) → tar_build_path h ≢ [] → tar_is_zero_block h ≡ false
named-tar_is_zero_block h named = elim (Bool-cases (tar_is_zero_block h)) [
  | inl blank ↦ absurd (named (zero-tar_build_path h blank))
  | inr full ↦ full
]

stored_contents :
    (k : Reader) (all : DeliversAll k) (text : Bytes) (s : k.State)
    → all.content s ≡ text
    → length text < 8 ^ 11
    → (if ltb 0 (length text) then create_loop k (length text) (length text) s else [])
      ≡ padded (data_blocks (length text)) text
unfolding data_blocks
stored_contents k all [] s e small = refl
stored_contents k all (x ∷ text) s e small =
    let some_bytes : ltb 0 (suc (length text)) ≡ true = ground arith in
    rw some_bytes (create_loop-data_blocks k all (x ∷ text) s e small)

module _ (path : Bytes) (st : Stat) (c : IsCString path) (short : length path ≤ 100)
    (regular : file_type st.mode ≡ 8) where
  abbrev flag : Write
  flag = record { offset = 156; bytes = b'0' ∷ [] }

  abbrev size : Write
  size = record { offset = 124; bytes = tar_ulong_to_oct 12 st.size }

  regular_writes : type_writes st ≡ flag ∷ size ∷ []
  unfolding type_writes
  regular_writes = rw regular refl

  regular_size : stored_size st ≡ st.size
  unfolding stored_size
  regular_size = rw regular refl

  module _ (link : IsLink st.link) where
    flag_field : field (unsigned_header path st) 156 1 ≡ b'0' ∷ []
    flag_field =
        let front : List Write = record { offset = 0; bytes = copied path 100 } ∷ stat_writes st in
        let back : List Write = size ∷ magic_writes in
        let h1 = write_all_at (replicate 512 0) front in
        let order : type_writes st ++ magic_writes ≡ flag ∷ back =
          ap (λ (t : List Write). t ++ magic_writes) regular_writes in
        ap (λ (h : Bytes). field h 156 1) (unsigned_writes path st c short link)
        ∙ ap (λ (t : List Write). field (write_all_at (replicate 512 0) (front ++ t)) 156 1) order
        ∙ ap (λ (h : Bytes). field h 156 1)
            (write_all_at-append (replicate 512 0) front (flag ∷ back))
        ∙ field_written h1 flag back
            (omega
              (arith, length-write_all_at (replicate 512 0) front, length-replicate {A = ℕ} 512 0))
            (
              inr (omega (arith, length-tar_ulong_to_oct 12 st.size (omega arith))),
              (inl (omega arith), (inl (omega arith), (inr (omega arith), tt))),
            )

    written_flag : get_or (tar_write_header path st) 156 0 ≡ b'0'
    unfolding tar_write_header
    written_flag =
        let u = unsigned_header path st in
        get_or-field (signed u) 156 b'0' (signed-spares u 156 1 (inr (omega arith)) ∙ flag_field)

    module _ (k k' : Reader) (all : DeliversAll k) (all' : DeliversAll k')
        (creates : Bytes → Bool) where
      created_bytes :
          (text : Bytes) (fd : k'.State)
          → all'.content fd ≡ text
          → st.size ≡ length text
          → length text < 8 ^ 11
          → tar_create_file k' path st (some fd)
            ≡ tar_write_header path st ++ padded (data_blocks (length text)) text
      unfolding tar_create_file
      created_bytes text fd read sized small =
          rw (regular, sized)
            (ap (◌++◌ (tar_write_header path (record st { size = length text })))
              (stored_contents k' all' text fd read small))

      -- A regular file with a path of 1 to 100 bytes and less than 8 GiB of data that is put into an
      -- archive, is alone in it and can be created where the archive is extracted, is extracted with
      -- its path, its permissions, 0644 if it has none, and its data, and tar returns 0. The reads of
      -- both files deliver all that is asked for while there is so much.
      pub tar_extract-tar_create_file :
          (text : Bytes) (f : ℕ) (fd : k'.State) (s : k.State)
          → all'.content fd ≡ text
          → path ≢ []
          → st.size ≡ length text
          → length text < 8 ^ 11
          → creates path ≡ true
          → all.content s ≡ tar_create_file k' path st (some fd) ++ (zero_block ++ zero_block)
          → tar_extract k creates (3 + f) s ≡ (
            tar_mkdirs path
                ++ created path (mode_or (st.mode % 4096) 420)
                  ∷ (block_writes (data_blocks (length text)) text
                      ++ changed_mode path (mode_or (st.mode % 4096) 420) ∷ []),
            some 0,
          )
      tar_extract-tar_create_file text f fd s read named sized small makes e =
          let h = tar_write_header path st in
          let n = data_blocks (length text) in
          let result : Bytes → ℕ → List Action × Option ℕ = λ (p : Bytes) (m : ℕ). (
            tar_mkdirs p
                ++ created p (mode_or m 420)
                  ∷ (block_writes n text ++ changed_mode p (mode_or m 420) ∷ []),
            some 0,
          ) in
          let permissions : st.mode % 4096 % 2 ^ 32 ≡ st.mode % 4096 = omega arith in
          let w = tar_write_header-IsHeaderOf path st c short link (omega (arith, sized)) in
          let archive =
            e
            ∙ ap (λ (t : Bytes). t ++ (zero_block ++ zero_block))
                (created_bytes text fd read sized small)
            ∙ append_assoc h (padded n text) (zero_block ++ zero_block) in
          tar_extract_single k all h text creates f s w.whole
            (named-tar_is_zero_block h (λ blank. named (sym w.path ∙ blank))) w.checksum
            written_flag (w.size ∙ regular_size ∙ sized) (ap creates w.path ∙ makes) archive
          ∙ ap (λ (p : Bytes). result p (tar_oct_to_ulong (field h 100 8) % 2 ^ 32)) w.path
          ∙ ap (result path) (ap (λ (m : ℕ). m % 2 ^ 32) w.mode ∙ permissions)
