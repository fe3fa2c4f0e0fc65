-- ===== src/Tar/Header/Written.antt =====
-- tools/tar.c: the header that `tar_write_header` writes is one that the reading functions accept,
-- and they read from it what was written.
use qoot.Base.{
  ℕ, zero, suc, ◌+◌, ◌%◌, ◌^◌, ◌<◌, ◌≤◌, ◌≡◌, ◌⊎◌, inl, inr, refl, ap, sym, ◌∙◌, true, List, [],
  ◌∷◌, ◌++◌, append_assoc, Bytes, length, length-replicate, take, replicate, get_or, All,
  All-append, All-imply, arith,
}
use qoot.Str.{IsCString}
use qoot.Tar.{field, tar_ulong_to_oct, tar_oct_to_ulong, tar_build_path, checksum_holds}
use qoot.Tar.Fields.{tar_oct_to_ulong-tar_ulong_to_oct}
use qoot.Tar.Header.{
  Stat, copied, stat_writes, type_writes, magic_writes, unsigned_header, signed, tar_write_header,
}
use qoot.Tar.Header.Checksum.{signed-spares, signed-checksum_holds}
use qoot.Tar.Header.Fits.{
  AreBytes, length-tar_ulong_to_oct, write_all_at-AreBytes, copied-AreBytes, cstr-copied,
  length-copied, zeros-AreBytes,
}
use qoot.Tar.Header.Parts.{
  IsLink, name_writes_short, stat_writes-AreBytes, type_writes-AreBytes, magic_writes-AreBytes,
  stat_writes-Spares, type_writes-Spares, magic_writes-Spares, stored_size-le, stored_size,
  type_writes_last,
}
use qoot.Tar.Writes.{
  Write, write_at, write_all_at, overlay, Spares, length-write_all_at, field-write_all_at,
  field_written,
}

pub write_all_at-append :
    (h : Bytes) (front back : List Write)
    → write_all_at h (front ++ back) ≡ write_all_at (write_all_at h front) back
unfolding write_all_at
write_all_at-append h [] back = refl
write_all_at-append h (w ∷ front) back =
    write_all_at-append (write_at h w.offset w.bytes) front back

pub get_or-field : (h : Bytes) (n c : ℕ) → field h n 1 ≡ c ∷ [] → get_or h n 0 ≡ c
get_or-field [] zero c e = cc
get_or-field [] (suc n) c e = cc
get_or-field (x ∷ h) zero c e = ground arith
get_or-field (x ∷ h) (suc n) c e = get_or-field h n c e

take-overlay : (n : ℕ) (h b : Bytes) → n ≤ length b → n ≤ length h → take n (overlay h b) ≡ take n b
take-overlay zero h b le fits = refl
take-overlay (suc n) [] b le fits = absurd (omega arith)
take-overlay (suc n) (x ∷ h) [] le fits = absurd (omega arith)
take-overlay (suc n) (x ∷ h) (c ∷ b) le fits =
    ap (◌∷◌ c) (take-overlay n h b (omega arith) (omega arith))

-- What `tar_extract` and `tar_list` read from a header.
pub record IsHeaderOf (name : Bytes) (st : Stat) (h : Bytes) : Type 0 where
  pub whole : length h ≡ 512
  pub checksum : checksum_holds h ≡ true
  pub path : tar_build_path h ≡ name
  pub size : tar_oct_to_ulong (field h 124 12) ≡ stored_size st
  pub mode : tar_oct_to_ulong (field h 100 8) ≡ st.mode % 4096

signed_whole : (h : Bytes) → length h ≡ 512 → length (signed h) ≡ 512
unfolding signed
signed_whole h whole = length-write_all_at h _ ∙ whole

module _ (path : Bytes) (st : Stat) (c : IsCString path) (short : length path ≤ 100)
    (link : IsLink st.link) where
  abbrev pub name : Write
  name = record { offset = 0; bytes = copied path 100 }

  abbrev pub others : List Write
  others = stat_writes st ++ (type_writes st ++ magic_writes)

  pub unsigned_writes : unsigned_header path st ≡ write_all_at (replicate 512 0) (name ∷ others)
  unfolding unsigned_header
  unsigned_writes =
      ap (λ (w : List Write). write_all_at (replicate 512 0) (w ++ others))
        (name_writes_short path short)

  whole : length (unsigned_header path st) ≡ 512
  whole =
      ap length unsigned_writes
      ∙ length-write_all_at (replicate 512 0) (name ∷ others)
      ∙ length-replicate {A = ℕ} 512 0

  bytes : AreBytes (unsigned_header path st)
  bytes = rw unsigned_writes (
      write_all_at-AreBytes (replicate 512 0) (name ∷ others) (zeros-AreBytes 512) (
        copied-AreBytes path 100 short (omega arith)
            (All-imply {P = λ d. (0 < d) × (d < 256)} {Q = λ d. d < 256} path (λ d b. b.1) c),
        All-append (λ (w : Write). AreBytes w.bytes) (stat_writes st)
            (type_writes st ++ magic_writes) (stat_writes-AreBytes st)
            (All-append (λ (w : Write). AreBytes w.bytes) (type_writes st) magic_writes
              (type_writes-AreBytes st link) magic_writes-AreBytes),
      ))

  others-spare : (at len : ℕ) → (at + len ≤ 100) ⊎ (265 ≤ at) → All (Spares at len) others
  others-spare at len (inl before) =
      All-append (Spares at len) (stat_writes st) (type_writes st ++ magic_writes)
        (stat_writes-Spares at len st (inl before))
        (All-append (Spares at len) (type_writes st) magic_writes
          (type_writes-Spares at len st link (inl (omega arith)))
          (magic_writes-Spares at len (inl (omega arith))))
  others-spare at len (inr behind) =
      All-append (Spares at len) (stat_writes st) (type_writes st ++ magic_writes)
        (stat_writes-Spares at len st (inr (omega arith)))
        (All-append (Spares at len) (type_writes st) magic_writes
          (type_writes-Spares at len st link (inr (omega arith)))
          (magic_writes-Spares at len (inr behind)))

  -- There is no prefix.
  no_prefix : field (unsigned_header path st) 345 1 ≡ 0 ∷ []
  no_prefix =
      ap (λ (h : Bytes). field h 345 1) unsigned_writes
      ∙ field-write_all_at (replicate 512 0) (name ∷ others) 345 1 (
        inr (omega (arith, (length-copied path 100 short (omega arith)).1)),
        others-spare 345 1 (inr (omega arith)),
      )

  name_field : field (unsigned_header path st) 0 100 ≡ take 100 (copied path 100)
  unfolding write_all_at write_at
  name_field =
      ap (λ (h : Bytes). field h 0 100) unsigned_writes
      ∙ field-write_all_at (write_at (replicate 512 0) 0 (copied path 100)) others 0 100
          (others-spare 0 100 (inl (omega arith)))
      ∙ take-overlay 100 (replicate 512 0) (copied path 100)
          (length-copied path 100 short (omega arith)).0 (omega arith)

  mode_field : field (unsigned_header path st) 100 8 ≡ tar_ulong_to_oct 8 (st.mode % 4096)
  unfolding write_all_at stat_writes
  mode_field =
      let later : List Write =
        record { offset = 108; bytes = tar_ulong_to_oct 8 st.uid }
        ∷ record { offset = 116; bytes = tar_ulong_to_oct 8 st.gid }
        ∷ record { offset = 136; bytes = tar_ulong_to_oct 12 st.mtime }
        ∷ [] in
      let w : Write = record { offset = 100; bytes = tar_ulong_to_oct 8 (st.mode % 4096) } in
      let eight = length-tar_ulong_to_oct 8 (st.mode % 4096) (omega arith) in
      let h1 = write_at (replicate 512 0) 0 (copied path 100) in
      ap (λ (h : Bytes). field h 100 8) unsigned_writes
      ∙ ap (λ (n : ℕ). field (write_all_at h1 others) 100 n) (sym eight)
      ∙ field_written h1 w (later ++ (type_writes st ++ magic_writes))
          (omega (
            arith,
            eight,
            length-write_all_at (replicate 512 0) (name ∷ []),
            length-replicate {A = ℕ} 512 0,
          ))
          (All-append (Spares 100 (length w.bytes)) later (type_writes st ++ magic_writes)
            (
              inl (omega (arith, eight)),
              (inl (omega (arith, eight)), (inl (omega (arith, eight)), tt)),
            )
            (All-append (Spares 100 (length w.bytes)) (type_writes st) magic_writes
              (type_writes-Spares 100 (length w.bytes) st link (inl (omega (arith, eight))))
              (magic_writes-Spares 100 (length w.bytes) (inl (omega (arith, eight))))))

  size_field : field (unsigned_header path st) 124 12 ≡ tar_ulong_to_oct 12 (stored_size st)
  size_field =
      let (front, e) = type_writes_last st in
      let w : Write = record { offset = 124; bytes = tar_ulong_to_oct 12 (stored_size st) } in
      let twelve = length-tar_ulong_to_oct 12 (stored_size st) (omega arith) in
      let before : List Write = name ∷ (stat_writes st ++ front) in
      let h1 = write_all_at (replicate 512 0) before in
      let order : others ≡ (stat_writes st ++ front) ++ w ∷ magic_writes =
        ap (λ (t : List Write). stat_writes st ++ (t ++ magic_writes)) e
        ∙ ap (◌++◌ (stat_writes st)) (append_assoc front (w ∷ []) magic_writes)
        ∙ sym (append_assoc (stat_writes st) front (w ∷ magic_writes)) in
      ap (λ (h : Bytes). field h 124 12) unsigned_writes
      ∙ ap (λ (t : List Write). field (write_all_at (replicate 512 0) (name ∷ t)) 124 12) order
      ∙ ap (λ (h : Bytes). field h 124 12)
          (write_all_at-append (replicate 512 0) before (w ∷ magic_writes))
      ∙ ap (λ (n : ℕ). field (write_all_at h1 (w ∷ magic_writes)) 124 n) (sym twelve)
      ∙ field_written h1 w magic_writes
          (omega (
            arith,
            twelve,
            length-write_all_at (replicate 512 0) before,
            length-replicate {A = ℕ} 512 0,
          ))
          (magic_writes-Spares 124 (length w.bytes) (inl (omega (arith, twelve))))

  read_path : tar_build_path (tar_write_header path st) ≡ path
  unfolding tar_write_header tar_build_path
  read_path =
      let u = unsigned_header path st in
      let first =
        get_or-field (signed u) 345 0 (signed-spares u 345 1 (inr (omega arith)) ∙ no_prefix) in
      rw (first, signed-spares u 0 100 (inl (omega arith)), name_field)
        (cstr-copied path 100 c short (omega arith))

  -- For a path of at most 100 bytes, a size below 8 GiB and a link of at most 99 bytes the header that
  -- is written has 512 bytes and the right checksum, and the path, the permissions and the size, 0 for
  -- a directory or a link, are read back.
  pub tar_write_header-IsHeaderOf : st.size < 8 ^ 11 → IsHeaderOf path st (tar_write_header path st)
  unfolding tar_write_header
  tar_write_header-IsHeaderOf small =
      let u = unsigned_header path st in
      record {
        whole = signed_whole u whole;
        checksum = signed-checksum_holds u whole bytes;
        path = read_path;
        size =
            ap tar_oct_to_ulong (signed-spares u 124 12 (inl (omega arith)) ∙ size_field)
            ∙ tar_oct_to_ulong-tar_ulong_to_oct 12 (stored_size st) (omega arith) (omega arith)
                (stored_size-le st small);
        mode =
            ap tar_oct_to_ulong (signed-spares u 100 8 (inl (omega arith)) ∙ mode_field)
            ∙ tar_oct_to_ulong-tar_ulong_to_oct 8 (st.mode % 4096) (omega arith) (omega arith)
                (omega arith);
      }
