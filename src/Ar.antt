-- ===== src/Ar.antt =====
-- tools/ar.c: the headers of the members, listing and extraction.
pub mod Header
pub mod Members
pub mod Names
use qoot.Base.{
  ℕ, zero, suc, ◌+◌, ◌-◌, ◌*◌, ◌%◌, ◌^◌, Bool, ◌&&◌, ◌||◌, List, [], ◌∷◌, ◌++◌, Option, none, some,
  Bytes, codes, length, take, get_or, ltb, leb, ◌==◌, if◌then◌else◌, not,
}
use qoot.Io.{Reader, got, failed}
use qoot.Str.{cstr, str_eq}
use qoot.Tar.{field}

-- `ar_parse_size`: the digits at the start of a field.
unfoldable pub size_loop : Bytes → ℕ → ℕ
size_loop [] val = val
size_loop (c ∷ s) val =
    if leb b'0' c && leb c b'9' then size_loop s ((val * 10 + (c - b'0')) % 2 ^ 64) else val

unfoldable pub ar_parse_size : Bytes → ℕ
unfolding size_loop
ar_parse_size h = size_loop (field h 48 10) 0

-- The bytes of the name field before a slash or a blank; a NUL among them ends the string.
unfoldable pub name_part : Bytes → Bytes
name_part [] = []
name_part (c ∷ name) = if c == b'/' || c == b' ' then [] else c ∷ name_part name

unfoldable pub ar_get_name : Bytes → Bytes
unfolding name_part
ar_get_name h = cstr (name_part (field h 0 16))

-- `h.ar_fmag[0] != '`' || h.ar_fmag[1] != '\n'`
unfoldable pub has_magic : Bytes → Bool
has_magic h = get_or h 58 0 == 96 && get_or h 59 0 == 10

-- `size + (size & 1)`
abbrev pub padded_size : ℕ → ℕ
padded_size size = (size + size % 2) % 2 ^ 64

abbrev pub magic : Bytes
magic = codes "!<arch>\n"

-- What becomes of a member: the file with the bytes that are written to it.
pub data Member : Type 0 where
  extracted : Bytes → Bytes → Member
  refused : Bytes → Member

-- The archive, with `sys_lseek(fd, n, SEEK_CUR)`; `creates` tells whether `sys_open` makes a file.
module _ (k : Reader) (seek : k.State → ℕ → k.State) where
  -- The loop over the data of a member, for at most `f` reads.
  unfoldable pub copy_data : ℕ → ℕ → k.State → Bytes × k.State
  copy_data zero remaining s = ([], s)
  copy_data (suc f) remaining s =
      let r = k.sys_read s (if ltb 4096 remaining then 4096 else remaining) in
      let next : Bytes × k.State = elim r.0 as (λ _. Bytes × k.State) [
        | failed e ↦ ([], r.1)
        | got [] ↦ ([], r.1)
        | got (c ∷ buf) ↦
            let (written, after) = copy_data f (remaining - length (c ∷ buf)) r.1 in
            ((c ∷ buf) ++ written, after)
      ] in
      if remaining == 0 then ([], s) else next

  -- A member behind its header: what is done, and the archive behind it.
  unfoldable pub extract_member : (Bytes → Bool) → Bytes → k.State → Member × k.State
  unfolding ar_parse_size ar_get_name copy_data
  extract_member creates h s =
      let name = ar_get_name h in
      let size = ar_parse_size h in
      let (written, after) = copy_data (size + 1) size s in
      if creates name
      then (extracted name written, if size % 2 == 0 then after else seek after 1)
      else (refused name, seek s (padded_size size))

  -- The loop over the headers, for at most `f` of them.
  unfoldable pub members_loop : (Bytes → Bool) → ℕ → k.State → List Member
  unfolding has_magic extract_member
  members_loop creates zero s = []
  members_loop creates (suc f) s =
      let r = k.sys_read s 60 in
      elim r.0 as (λ _. List Member) [
        | failed e ↦ []
        | got h ↦
            let (action, after) = extract_member creates h r.1 in
            let later = action ∷ members_loop creates f after in
            if length h == 60 && has_magic h then later else []
      ]

  -- The names that `ar_list` prints.
  unfoldable pub names_loop : ℕ → k.State → List Bytes
  unfolding has_magic ar_parse_size ar_get_name
  names_loop zero s = []
  names_loop (suc f) s =
      let r = k.sys_read s 60 in
      elim r.0 as (λ _. List Bytes) [
        | failed e ↦ []
        | got h ↦
            let later = ar_get_name h ∷ names_loop f (seek r.1 (padded_size (ar_parse_size h))) in
            if length h == 60 && has_magic h then later else []
      ]

  -- The check of the first eight bytes, and the archive behind them.
  unfoldable pub open_archive : k.State → Option k.State
  open_archive fd =
      let r = k.sys_read fd 8 in
      elim r.0 as (λ _. Option k.State) [
        | failed e ↦ none
        | got b ↦ if length b == 8 && str_eq b magic then some r.1 else none
      ]

  -- What is done, and what is returned.
  unfoldable pub ar_extract : (Bytes → Bool) → ℕ → k.State → List Member × ℕ
  unfolding open_archive members_loop
  ar_extract creates f fd = elim (open_archive fd) as (λ _. List Member × ℕ) [
    | none ↦ ([], 1)
    | some s ↦ (members_loop creates f s, 0)
  ]

  unfoldable pub ar_list : ℕ → k.State → List Bytes × ℕ
  unfolding open_archive names_loop
  ar_list f fd = elim (open_archive fd) as (λ _. List Bytes × ℕ) [
    | none ↦ ([], 1)
    | some s ↦ (names_loop f s, 0)
  ]
