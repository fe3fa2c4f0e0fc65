-- ===== src/Tar/Create.antt =====
-- tools/tar.c: `tar_create_recursive` on what is no directory: the bytes that it adds to the
-- archive. `fd` is what `sys_open` gives for the file, and `k` reads it.
pub mod Blocks
pub mod Again
use qoot.Base.{
  ℕ, zero, suc, ◌+◌, ◌-◌, Bool, true, false, ◌&&◌, List, [], ◌∷◌, ◌++◌, Option, none, some, Bytes,
  length, take, replicate, ltb, ◌==◌, if◌then◌else◌,
}
use qoot.Io.{Chunk, got, failed, Reader}
use qoot.Io.Mode.{file_type}
use qoot.Tar.Header.{Stat, tar_write_header}
use qoot.Tar.Extract.Data.{block_of}

-- `remaining > 512 ? 512 : remaining`
unfoldable pub asked : ℕ → ℕ
asked remaining = if ltb 512 remaining then 512 else remaining

module _ (k : Reader) where
  -- The loop over the data, for at most `f` reads; each one adds a block, filled up with NULs.
  unfoldable pub create_loop : ℕ → ℕ → k.State → Bytes
  create_loop zero remaining s = []
  create_loop (suc f) zero s = []
  create_loop (suc f) (suc more) s =
      let remaining = suc more in
      let r = k.sys_read s (asked remaining) in
      elim r.0 as (λ _. Bytes) [
        | failed e ↦ []
        | got buf ↦
            let later = create_loop f (remaining - length buf) r.1 in
            if length buf == 0 then [] else block_of buf ++ later
      ]

  -- The header, and the data of a regular file that is not empty and can be opened.
  unfoldable pub tar_create_file : Bytes → Stat → Option k.State → Bytes
  tar_create_file path st fd =
      let contents : Bytes = elim fd as (λ _. Bytes) [
        | none ↦ []
        | some s ↦ create_loop st.size st.size s
      ] in
      tar_write_header path st ++ (if file_type st.mode == 8 && ltb 0 st.size then contents else [])
