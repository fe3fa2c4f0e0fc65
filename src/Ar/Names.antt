-- ===== src/Ar/Names.antt =====
-- tools/ar.c: the names of the files that are made.
use qoot.Base.{
  ℕ, zero, suc, ◌≤◌, ◌≡◌, ◌≢◌, refl, inl, inr, Bool, ◌&&◌, ◌||◌, [], ◌∷◌, Bytes, length,
  length-take, All, arith, Bool-cases, Option-cases, ◌==◌,
}
use qoot.Ar.{
  Member, extracted, refused, name_part, ar_get_name, extract_member, members_loop, has_magic,
  open_archive, ar_extract,
}
use qoot.Io.{Chunk, Reader, got, failed}
use qoot.Str.{cstr}
use qoot.Tar.{field}

-- A name of at most 16 bytes with no slash and no blank.
abbrev pub IsPlain : Bytes → Type 0
IsPlain name = (length name ≤ 16) × All (λ c. (c ≢ b'/') × (c ≢ b' ')) name

abbrev pub Stays : Member → Type 0
Stays (extracted name bytes) = IsPlain name
Stays (refused name) = IsPlain name

name_part_lem :
    (name : Bytes)
    → (length (name_part name) ≤ length name) × All (λ c. (c ≢ b'/') × (c ≢ b' ')) (name_part name)
unfolding name_part
name_part_lem [] = (omega arith, tt)
name_part_lem (c ∷ name) = elim (Bool-cases (c == b'/' || c == b' ')) [
  | inl e ↦ rw e (omega arith, tt)
  | inr e ↦ rw e (
      let (short, free) = name_part_lem name in (omega arith, ((ground arith, ground arith), free)))
]

cstr-front : (P : ℕ → Type 0) (s : Bytes) → All P s → (length (cstr s) ≤ length s) × All P (cstr s)
unfolding cstr
cstr-front P [] h = (omega arith, tt)
cstr-front P (c ∷ s) h = elim (Bool-cases (c == 0)) [
  | inl e ↦ rw e (omega arith, tt)
  | inr e ↦ rw e (let (short, kept) = cstr-front P s h.1 in (omega arith, (h.0, kept)))
]

ar_get_name-IsPlain : (h : Bytes) → IsPlain (ar_get_name h)
unfolding ar_get_name
ar_get_name-IsPlain h =
    let (short, free) = name_part_lem (field h 0 16) in
    let (cut, kept) = cstr-front (λ c. (c ≢ b'/') × (c ≢ b' ')) (name_part (field h 0 16)) free in
    (omega (arith, length-take 16 h), kept)

module _ (k : Reader) (seek : k.State → ℕ → k.State) (creates : Bytes → Bool) where
  extract_member-Stays : (h : Bytes) (s : k.State) → Stays (extract_member k seek creates h s).0
  unfolding extract_member
  extract_member-Stays h s = elim (Bool-cases (creates (ar_get_name h))) [
    | inl e ↦ rw e (ar_get_name-IsPlain h)
    | inr e ↦ rw e (ar_get_name-IsPlain h)
  ]

  members_loop-Stays : (f : ℕ) (s : k.State) → All Stays (members_loop k seek creates f s)
  unfolding members_loop
  members_loop-Stays zero s = tt
  members_loop-Stays (suc f) s = by_chunk (k.sys_read s 60).0 refl (λ t. members_loop-Stays f t)
    where
      by_chunk :
          (r : Chunk)
          → (k.sys_read s 60).0 ≡ r
          → ((t : k.State) → All Stays (members_loop k seek creates f t))
          → All Stays (members_loop k seek creates (suc f) s)
      by_chunk (failed e) g ih = rw (g, members_loop) tt
      by_chunk (got h) g ih = elim (Bool-cases (length h == 60 && has_magic h)) [
        | inl e ↦
            let member = extract_member k seek creates h (k.sys_read s 60).1 in
            rw (g, members_loop, e) (extract_member-Stays h (k.sys_read s 60).1, ih member.1)
        | inr e ↦ rw (g, members_loop, e) tt
      ]

  -- Whatever the archive holds, each name that ar_extract hands to sys_open has at most 16 bytes, and
  -- no slash and no blank.
  pub ar_extract-Stays : (f : ℕ) (fd : k.State) → All Stays (ar_extract k seek creates f fd).0
  unfolding ar_extract
  ar_extract-Stays f fd = elim (Option-cases (open_archive k seek fd)) [
    | inl e ↦ rw (e, ar_extract) tt
    | inr (s, e) ↦ rw (e, ar_extract) (members_loop-Stays f s)
  ]
