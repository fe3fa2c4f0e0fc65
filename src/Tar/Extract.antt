-- ===== src/Tar/Extract.antt =====
-- tools/tar.c: `tar_extract` and `tar_list`, over the archive's `sys_read`. What is done to the
-- file system is a list of actions; `creates` tells whether `sys_open` makes a file. A path with
-- no bytes, of which `tar_mkdirs` would read on behind the terminator, makes no directory here.
pub mod Data
pub mod Single
use qoot.Base.{
  ℕ, zero, suc, ◌+◌, ◌-◌, ◌/◌, ◌%◌, ◌^◌, Bool, List, [], ◌∷◌, ◌++◌, Option, none, some, Bytes,
  length, take, get_or, ltb, leb, not, ◌==◌, if◌then◌else◌,
}
use qoot.Io.{got, failed, Reader}
use qoot.Str.{cstr}
use qoot.Tar.{field, tar_oct_to_ulong, tar_is_zero_block, tar_build_path, checksum_holds}

pub data Action : Type 0 where
  made_dir created changed_mode : Bytes → ℕ → Action
  unlinked : Bytes → Action
  symlinked linked : Bytes → Bytes → Action
  wrote : Bytes → Action

-- The loop of `tar_mkdirs`, behind the bytes before `p`.
unfoldable pub parents : Bytes → Bytes → List Action
parents before [] = []
parents before (c ∷ path) =
    let later = parents (before ++ c ∷ []) path in
    if c == b'/' then made_dir before 493 ∷ later else later

unfoldable pub tar_mkdirs : Bytes → List Action
tar_mkdirs [] = []
tar_mkdirs (c ∷ path) = parents (c ∷ []) path

-- `mode ? mode : other`
unfoldable pub mode_or : ℕ → ℕ → ℕ
mode_or mode other = if mode == 0 then other else mode

-- The path that a link leads to.
unfoldable pub link_target : Bytes → Bytes
link_target h = cstr (field h 157 100)

-- `(size + 511) / 512`
unfoldable pub data_blocks : ℕ → ℕ
data_blocks size = (size + 511) % 2 ^ 64 / 512

module _ (k : Reader) where
  -- The reads that skip the data of a file.
  unfoldable pub skip_blocks : ℕ → k.State → k.State
  skip_blocks zero s = s
  skip_blocks (suc n) s = skip_blocks n (k.sys_read s 512).1

  -- The loop that copies the data of a file, which takes a round for each block: what is written,
  -- and the archive behind it, `none` if a read is short.
  unfoldable pub copy_blocks : ℕ → ℕ → k.State → List Action × Option k.State
  copy_blocks zero remaining s = ([], some s)
  copy_blocks (suc n) remaining s =
      let r = k.sys_read s 512 in
      elim r.0 as (λ _. List Action × Option k.State) [
        | failed e ↦ ([], none)
        | got block ↦
            let (written, after) = copy_blocks n (remaining - 512) r.1 in
            if ltb (length block) 512
            then ([], none)
            else (wrote (take remaining block) ∷ written, after)
      ]

  -- What is done for a header, and the archive behind its data.
  unfoldable pub extract_entry : (Bytes → Bool) → Bytes → k.State → List Action × Option k.State
  extract_entry creates h s =
      let path = tar_build_path h in
      let size = tar_oct_to_ulong (field h 124 12) in
      let mode = tar_oct_to_ulong (field h 100 8) % 2 ^ 32 in
      let flag = get_or h 156 0 in
      let above = tar_mkdirs path in
      let (written, after) = copy_blocks (data_blocks size) size s in
      let closing : List Action = elim after as (λ _. List Action) [
        | none ↦ []
        | some _ ↦ changed_mode path (mode_or mode 420) ∷ []
      ] in
      if flag == b'5'
      then (above ++ made_dir path (mode_or mode 493) ∷ [], some s)
      else if flag == b'2'
      then (above ++ unlinked path ∷ symlinked (link_target h) path ∷ [], some s)
      else if flag == b'1'
      then (above ++ unlinked path ∷ linked (link_target h) path ∷ [], some s)
      else if creates path
      then (above ++ created path (mode_or mode 420) ∷ (written ++ closing), after)
      else (above, some (skip_blocks (data_blocks size) s))

  -- The loop over the headers, for at most `f` of them: the actions, and what is returned, `none`
  -- if there are more.
  unfoldable pub extract_loop : (Bytes → Bool) → ℕ → k.State → ℕ → List Action × Option ℕ
  extract_loop creates zero s zero_count = ([], none)
  extract_loop creates (suc f) s zero_count =
      let r = k.sys_read s 512 in
      elim r.0 as (λ _. List Action × Option ℕ) [
        | failed e ↦ ([], some 0)
        | got block ↦
            let blank = extract_loop creates f r.1 (suc zero_count) in
            let entry = extract_entry creates block r.1 in
            let further : List Action × Option ℕ = elim entry.1 as (λ _. List Action × Option ℕ) [
              | none ↦ (entry.0, some 1)
              | some s' ↦ let later = extract_loop creates f s' 0 in (entry.0 ++ later.0, later.1)
            ] in
            if length block == 0
            then ([], some 0)
            else if ltb (length block) 512
            then ([], some 1)
            else if tar_is_zero_block block
            then (if leb 2 (suc zero_count) then ([], some 0) else blank)
            else if not (checksum_holds block)
            then ([], some 1)
            else further
      ]

  unfoldable pub tar_extract : (Bytes → Bool) → ℕ → k.State → List Action × Option ℕ
  tar_extract creates f s = extract_loop creates f s 0

  -- The paths that `tar_list` prints; it does not look at the checksum, and returns 0.
  unfoldable pub list_loop : ℕ → k.State → ℕ → List Bytes
  list_loop zero s zero_count = []
  list_loop (suc f) s zero_count =
      let r = k.sys_read s 512 in
      elim r.0 as (λ _. List Bytes) [
        | failed e ↦ []
        | got block ↦
            let blank = list_loop f r.1 (suc zero_count) in
            let size = tar_oct_to_ulong (field block 124 12) in
            let later = list_loop f (skip_blocks (data_blocks size) r.1) 0 in
            if ltb (length block) 512
            then []
            else if tar_is_zero_block block
            then (if leb 2 (suc zero_count) then [] else blank)
            else tar_build_path block ∷ later
      ]

  unfoldable pub tar_list : ℕ → k.State → List Bytes
  tar_list f s = list_loop f s 0
