-- ===== src/Tar/Header.antt =====
-- tools/tar.c: `tar_write_header`, the 512 bytes of the header of a file.
pub mod Fits
pub mod Checksum
pub mod Parts
pub mod Written
use qoot.Base.{
  ℕ, zero, suc, ◌+◌, ◌-◌, ◌%◌, Bool, true, false, List, [], ◌∷◌, ◌++◌, Option, none, some, Bytes,
  codes, length, drop, get_or, replicate, ltb, ◌==◌, if◌then◌else◌,
}
use qoot.Io.Mode.{file_type}
use qoot.Str.{str_len, str_ncpy}
use qoot.Tar.{tar_checksum, tar_ulong_to_oct}
use qoot.Tar.Writes.{Write, write_at, write_all_at}

-- The fields of `struct stat` that are read, and what `sys_readlink` gives, `none` if it fails.
pub record Stat : Type 0 where
  pub mode : ℕ
  pub uid : ℕ
  pub gid : ℕ
  pub mtime : ℕ
  pub size : ℕ
  pub link : Option Bytes

-- The loop that looks for a slash, from `i` on: where it stops by `break` or `goto`.
unfoldable pub split_loop : ℕ → ℕ → Bytes → Option ℕ
split_loop zero i path = none
split_loop (suc f) i path =
    let later = split_loop f (suc i) path in
    if ltb i 155 then (if get_or path i 0 == b'/' then some i else later) else none

-- The bytes that `str_ncpy` stores.
unfoldable pub copied : Bytes → ℕ → Bytes
copied src n = str_ncpy [] src n

unfoldable pub name_writes : Bytes → List Write
name_writes path =
    let plen = str_len path in
    let whole = record { offset = 0; bytes = copied path 100 } ∷ [] in
    let split : List Write = elim (split_loop 100 (plen - 100) path) as (λ _. List Write) [
      | none ↦ whole
      | some i ↦
          record { offset = 345; bytes = copied path i }
          ∷ record { offset = 0; bytes = copied (drop (i + 1) path) 100 }
          ∷ []
    ] in
    if ltb 100 plen then split else whole

unfoldable pub stat_writes : Stat → List Write
stat_writes st =
    record { offset = 100; bytes = tar_ulong_to_oct 8 (st.mode % 4096) }
    ∷ record { offset = 108; bytes = tar_ulong_to_oct 8 st.uid }
    ∷ record { offset = 116; bytes = tar_ulong_to_oct 8 st.gid }
    ∷ record { offset = 136; bytes = tar_ulong_to_oct 12 st.mtime }
    ∷ []

unfoldable pub link_writes : Option Bytes → List Write
link_writes none = []
link_writes (some link) = record { offset = 157; bytes = copied link 100 } ∷ []

-- The type, its extra field and the size.
unfoldable pub type_writes : Stat → List Write
type_writes st =
    if file_type st.mode == 4
    then record { offset = 156; bytes = b'5' ∷ [] }
      ∷ record { offset = 124; bytes = tar_ulong_to_oct 12 0 }
      ∷ []
    else if file_type st.mode == 10
    then record { offset = 156; bytes = b'2' ∷ [] }
      ∷ (link_writes st.link ++ record { offset = 124; bytes = tar_ulong_to_oct 12 0 } ∷ [])
    else record { offset = 156; bytes = b'0' ∷ [] }
      ∷ record { offset = 124; bytes = tar_ulong_to_oct 12 st.size }
      ∷ []

abbrev pub magic_writes : List Write
magic_writes =
    record { offset = 257; bytes = codes "ustar" ++ 0 ∷ [] }
    ∷ record { offset = 263; bytes = codes "00" }
    ∷ record { offset = 148; bytes = replicate 8 b' ' }
    ∷ []

-- The header before its checksum is stored.
unfoldable pub unsigned_header : Bytes → Stat → Bytes
unsigned_header path st =
    write_all_at (replicate 512 0)
      (name_writes path ++ (stat_writes st ++ (type_writes st ++ magic_writes)))

unfoldable pub signed : Bytes → Bytes
signed h = write_all_at h (
    record { offset = 148; bytes = tar_ulong_to_oct 7 (tar_checksum h) }
    ∷ record { offset = 155; bytes = b' ' ∷ [] }
    ∷ [])

-- What `tar_write_header` writes.
unfoldable pub tar_write_header : Bytes → Stat → Bytes
tar_write_header path st = signed (unsigned_header path st)
