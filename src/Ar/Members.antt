-- ===== src/Ar/Members.antt =====
-- tools/ar.c: an archive that is put together from members gives them back.
use qoot.Base.{
  ℕ, zero, suc, ◌+◌, ◌-◌, ◌%◌, ◌<◌, ◌≤◌, ◌≡◌, refl, ap, sym, ◌∙◌, Bool, true, false, List, [], ◌∷◌,
  ◌++◌, append_assoc, Bytes, length, length-take, length-drop, take, drop, take-append-drop,
  take_front, drop_front, take_inside, drop_inside, All, arith, ne→==, eq→==, map, ltb, ◌==◌,
  if◌then◌else◌,
}
use qoot.Ar.{extracted, copy_data, extract_member, members_loop, open_archive, ar_extract, magic}
use qoot.Io.{Reader, got}
use qoot.Str.{str_eq}
use qoot.Tar.Extract.Data.{DeliversAll}
use qoot.Ar.Header.{
  File, header_of, body_of, archived, Fits, length-header_of, name-header_of, size-header_of,
  magic-header_of,
}

abbrev chunk_size : ℕ → ℕ
chunk_size remaining = if ltb 4096 remaining then 4096 else remaining

chunk_size_lem : (n : ℕ) → (chunk_size (suc n) ≤ suc n) × (0 < chunk_size (suc n))
chunk_size_lem n = (ground arith, ground arith)

module _ (k : Reader) (d : DeliversAll k) (seek : k.State → ℕ → k.State)
    (seeks : (s : k.State) (n : ℕ) → d.content (seek s n) ≡ drop n (d.content s)) where
  copy_step :
      (f remaining : ℕ) (s : k.State) (b : Bytes)
      → (k.sys_read s (chunk_size remaining)).0 ≡ got b
      → 0 < length b
      → 0 < remaining
      → copy_data k seek (suc f) remaining s ≡ (
        b ++ (copy_data k seek f (remaining - length b) (k.sys_read s (chunk_size remaining)).1).0,
        (copy_data k seek f (remaining - length b) (k.sys_read s (chunk_size remaining)).1).1,
      )
  unfolding copy_data
  copy_step f remaining s [] g some_bytes more = elim some_bytes [ ]
  copy_step f remaining s (c ∷ b) g some_bytes more = rw (ne→== remaining 0 (omega arith), g) refl

  -- The data of a member are copied whole.
  copy_data-content :
      (f : ℕ) (text rest : Bytes) (s : k.State)
      → d.content s ≡ text ++ rest
      → length text < f
      → ((copy_data k seek f (length text) s).0 ≡ text)
        × (d.content (copy_data k seek f (length text) s).1 ≡ rest)
  unfolding copy_data
  copy_data-content zero text rest s e enough = elim enough [ ]
  copy_data-content (suc f) [] rest s e enough = (refl, e)
  copy_data-content (suc f) (c ∷ text) rest s e enough =
      let whole = c ∷ text in
      let n = chunk_size (length whole) in
      let (small, some_bytes) = chunk_size_lem (length text) in
      let piece : (k.sys_read s n).0 ≡ got (take n whole) =
        d.reads s n
        ∙ ap (λ (t : Bytes). got (take n t)) e
        ∙ ap got (take_inside n whole rest small) in
      let left : d.content (k.sys_read s n).1 ≡ drop n whole ++ rest =
        d.rest s n ∙ ap (drop n) e ∙ drop_inside n whole rest small in
      let count : length (take n whole) ≡ n = omega (arith, length-take n whole) in
      let remains : length whole - n ≡ length (drop n whole) = sym (length-drop n whole) in
      let (copied, behind) =
        copy_data-content f (drop n whole) rest (k.sys_read s n).1 left
          (omega (arith, length-drop n whole)) in
      let step = copy_step f (length whole) s (take n whole) piece (omega arith) (omega arith) in
      let same =
        step
        ∙ ap
            (λ m. (
              take n whole ++ (copy_data k seek f m (k.sys_read s n).1).0,
              (copy_data k seek f m (k.sys_read s n).1).1,
            ))
            (ap (λ m. length whole - m) count ∙ remains) in
      (
        ap (λ (q : Bytes × k.State). q.0) same
            ∙ ap (◌++◌ (take n whole)) copied
            ∙ take-append-drop n whole,
        ap (λ (q : Bytes × k.State). d.content q.1) same ∙ behind,
      )

  past_padding :
      (even : Bool) (t : k.State) (rest : Bytes)
      → d.content t ≡ (if even then [] else 10 ∷ []) ++ rest
      → d.content (if even then t else seek t 1) ≡ rest
  past_padding true t rest e = e
  past_padding false t rest e = seeks t 1 ∙ ap (drop 1) e

  -- A member whose file can be made.
  extract_member-file :
      (creates : Bytes → Bool) (file : File) (rest : Bytes) (s : k.State)
      → Fits file
      → creates file.name ≡ true
      → d.content s ≡ body_of file ++ rest
      → ((extract_member k seek creates (header_of file) s).0 ≡ extracted file.name file.contents)
        × (d.content (extract_member k seek creates (header_of file) s).1 ≡ rest)
  unfolding extract_member
  extract_member-file creates file rest s fits makes e =
      let pad : Bytes = if length file.contents % 2 == 0 then [] else 10 ∷ [] in
      let (copied, behind) =
        copy_data-content (length file.contents + 1) file.contents (pad ++ rest) s
          (e ∙ append_assoc file.contents pad rest) (omega arith) in
      rw (name-header_of file fits, size-header_of file fits, makes, copied)
        (refl, past_padding (length file.contents % 2 == 0) _ rest behind)

  members_loop-archived :
      (creates : Bytes → Bool) (f : ℕ) (files : List File) (s : k.State)
      → length files < f
      → d.content s ≡ archived files
      → All Fits files
      → All (λ file. creates file.name ≡ true) files
      → members_loop k seek creates f s ≡ map (λ file. extracted file.name file.contents) files
  unfolding members_loop
  members_loop-archived creates zero files s enough e fits makes = elim enough [ ]
  members_loop-archived creates (suc f) [] s enough e fits makes =
      let ended : (k.sys_read s 60).0 ≡ got [] =
        d.reads s 60 ∙ ap (λ (t : Bytes). got (take 60 t)) e in
      rw (ended, members_loop)
  members_loop-archived creates (suc f) (file ∷ files) s enough e fits makes =
      let h = header_of file in
      let sixty = length-header_of file fits.0 in
      let rest = body_of file ++ archived files in
      let piece : (k.sys_read s 60).0 ≡ got h =
        d.reads s 60
        ∙ ap (λ (t : Bytes). got (take 60 t)) e
        ∙ ap got (take_front 60 h rest sixty) in
      let left : d.content (k.sys_read s 60).1 ≡ rest =
        d.rest s 60 ∙ ap (drop 60) e ∙ drop_front 60 h rest sixty in
      let (done, after) =
        extract_member-file creates file (archived files) (k.sys_read s 60).1 fits.0 makes.0 left in
      let later =
        members_loop-archived creates f files
          (extract_member k seek creates h (k.sys_read s 60).1).1 (omega arith) after fits.1
          makes.1 in
      rw (piece, members_loop, eq→== (length h) 60 sixty, magic-header_of file fits.0, done, later)
        refl

  -- Of an archive of files whose names are strings of at most 15 bytes with no slash or blank, whose
  -- contents are less than 10 GB, and which can be made, ar_extract makes each file with its
  -- contents, in their order, and returns 0, where the reads deliver all that is asked for while
  -- there is so much and a seek passes over as many bytes as it says.
  pub ar_extract-archived :
      (creates : Bytes → Bool) (f : ℕ) (files : List File) (fd : k.State)
      → length files < f
      → d.content fd ≡ magic ++ archived files
      → All Fits files
      → All (λ file. creates file.name ≡ true) files
      → ar_extract k seek creates f fd ≡ (map (λ file. extracted file.name file.contents) files, 0)
  unfolding ar_extract open_archive str_eq
  ar_extract-archived creates f files fd enough e fits makes =
      let piece : (k.sys_read fd 8).0 ≡ got magic =
        d.reads fd 8 ∙ ap (λ (t : Bytes). got (take 8 t)) e in
      let left : d.content (k.sys_read fd 8).1 ≡ archived files = d.rest fd 8 ∙ ap (drop 8) e in
      rw
        (
          piece,
          ar_extract,
          open_archive,
          members_loop-archived creates f files (k.sys_read fd 8).1 enough left fits makes,
        )
        refl
