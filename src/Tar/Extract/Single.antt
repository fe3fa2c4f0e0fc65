-- ===== src/Tar/Extract/Single.antt =====
-- tools/tar.c: what `tar_extract` does with the archive of one file.
use qoot.Base.{
  ℕ, suc, ◌+◌, ◌%◌, ◌^◌, ◌≡◌, refl, ap, sym, ◌∙◌, Bool, true, false, List, [], ◌∷◌, ◌++◌,
  append-nil, Option, some, Bytes, length, get_or, arith, leb,
}
use qoot.Io.{got, Reader}
use qoot.Tar.{field, tar_oct_to_ulong, tar_is_zero_block, tar_build_path, checksum_holds}
use qoot.Tar.Extract.{
  Action, created, changed_mode, tar_mkdirs, mode_or, data_blocks, extract_entry, extract_loop,
  tar_extract,
}
use qoot.Tar.Extract.Data.{
  DeliversAll, zero_block, padded, block_writes, length-zero_block, zero_block_zero, block_read,
  copy_blocks-padded,
}

module _ (k : Reader) (all : DeliversAll k) where
  extract_blank :
      (creates : Bytes → Bool) (f : ℕ) (s : k.State) (zero_count : ℕ)
      → (k.sys_read s 512).0 ≡ got zero_block
      → leb 2 (suc zero_count) ≡ false
      → extract_loop k creates (suc f) s zero_count
        ≡ extract_loop k creates f (k.sys_read s 512).1 (suc zero_count)
  unfolding extract_loop
  extract_blank creates f s zero_count read first =
      rw (read, extract_loop) (rw (length-zero_block) (rw (zero_block_zero, first) refl))

  extract_last :
      (creates : Bytes → Bool) (f : ℕ) (s : k.State)
      → (k.sys_read s 512).0 ≡ got zero_block
      → extract_loop k creates (suc f) s 1 ≡ ([], some 0)
  unfolding extract_loop
  extract_last creates f s read =
      rw (read, extract_loop) (rw (length-zero_block) (rw (zero_block_zero) refl))

  -- The end of an archive.
  extract_end :
      (creates : Bytes → Bool) (f : ℕ) (s : k.State)
      → all.content s ≡ zero_block ++ zero_block
      → extract_loop k creates (suc (suc f)) s 0 ≡ ([], some 0)
  extract_end creates f s e =
      let (read, left) = block_read k all zero_block zero_block s length-zero_block e in
      let (read', left') =
        block_read k all zero_block [] (k.sys_read s 512).1 length-zero_block
          (left ∙ sym (append-nil zero_block)) in
      extract_blank creates (suc f) s 0 read refl
      ∙ extract_last creates f (k.sys_read s 512).1 read'

  module _ (h text : Bytes) (creates : Bytes → Bool) where
    abbrev path : Bytes
    path = tar_build_path h

    abbrev mode : ℕ
    mode = mode_or (tar_oct_to_ulong (field h 100 8) % 2 ^ 32) 420

    abbrev blocks : ℕ
    blocks = data_blocks (length text)

    -- What is done for a file with these data.
    abbrev pub file_actions : List Action
    file_actions =
        tar_mkdirs path
        ++ created path mode ∷ (block_writes blocks text ++ changed_mode path mode ∷ [])

    entry :
        (rest : Bytes) (s : k.State)
        → get_or h 156 0 ≡ b'0'
        → tar_oct_to_ulong (field h 124 12) ≡ length text
        → creates path ≡ true
        → all.content s ≡ padded blocks text ++ rest
        → (s' : k.State) × (extract_entry k creates h s ≡ (file_actions, some s'))
          × (all.content s' ≡ rest)
    unfolding extract_entry
    entry rest s flag size makes e =
        let (s', written, after) = copy_blocks-padded k all blocks text rest s e in
        (s', rw (flag, size, makes) (rw written refl), after)

    header_step :
        (f : ℕ) (s : k.State) (s' : k.State)
        → (k.sys_read s 512).0 ≡ got h
        → length h ≡ 512
        → tar_is_zero_block h ≡ false
        → checksum_holds h ≡ true
        → extract_entry k creates h (k.sys_read s 512).1 ≡ (file_actions, some s')
        → extract_loop k creates (suc f) s 0
          ≡ (file_actions ++ (extract_loop k creates f s' 0).0, (extract_loop k creates f s' 0).1)
    unfolding extract_loop
    header_step f s s' read whole some_byte sum done =
        let later = extract_loop k creates f s' 0 in
        let closed : List Action × Option k.State → List Action × Option ℕ =
          λ (r : List Action × Option k.State). (r.0 ++ later.0, later.1) in
        rw (read, extract_loop) (rw whole (rw (some_byte, sum) (rw done (ap closed done))))

    -- From an archive of one file, with a header whose checksum holds and a block of NULs twice behind
    -- the data, tar makes the directories above the file, the file with its mode and its data, and
    -- returns 0.
    pub tar_extract_single :
        (f : ℕ) (s : k.State)
        → length h ≡ 512
        → tar_is_zero_block h ≡ false
        → checksum_holds h ≡ true
        → get_or h 156 0 ≡ b'0'
        → tar_oct_to_ulong (field h 124 12) ≡ length text
        → creates (tar_build_path h) ≡ true
        → all.content s
          ≡ h ++ (padded (data_blocks (length text)) text ++ (zero_block ++ zero_block))
        → tar_extract k creates (3 + f) s ≡ (file_actions, some 0)
    unfolding tar_extract
    tar_extract_single f s whole some_byte sum flag size makes e =
        let rest = zero_block ++ zero_block in
        let (read, left) = block_read k all h (padded blocks text ++ rest) s whole e in
        let (s', done, after) = entry rest (k.sys_read s 512).1 flag size makes left in
        let three : 3 + f ≡ suc (suc (suc f)) = omega arith in
        ap (λ (n : ℕ). extract_loop k creates n s 0) three
        ∙ header_step (suc (suc f)) s s' read whole some_byte sum done
        ∙ ap (λ (r : List Action × Option ℕ). (file_actions ++ r.0, r.1))
            (extract_end creates f s' after)
        ∙ ap (λ (a : List Action). (a, some 0)) (append-nil file_actions)
