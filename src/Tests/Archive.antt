-- ===== src/Tests/Archive.antt =====
-- tools/tar.c: runs and witnesses.
use mathlib.Core.List.{cons-ne-nil}
use qoot.Base.{Bytes, some, ◌+◌, ◌%◌, none, ◌≡◌, refl, true, [], ◌∷◌, ◌++◌, codes, replicate, arith}
use qoot.Tests.Disk.{disk, disk_delivers_all}
use qoot.Tar.Extract.{tar_extract, tar_mkdirs, created, changed_mode, mode_or, data_blocks}
use qoot.Tar.Extract.Data.{zero_block, block_writes}
use qoot.Tar.Create.{tar_create_file}
use qoot.Tar.Create.Again.{tar_extract-tar_create_file}
use qoot.Tar.{tar_oct_to_ulong, tar_ulong_to_oct, tar_build_path, checksum_holds, tar_is_zero_block}
use qoot.Tar.Header.{Stat, tar_write_header}
use qoot.Tar.Header.Written.{IsHeaderOf, tar_write_header-IsHeaderOf}

mode_field : tar_ulong_to_oct 8 420 ≡ codes "0000644" ++ 0 ∷ []
unfolding tar_ulong_to_oct
mode_field = refl

-- A header with a name of one byte and its checksum.
small_header :
    checksum_holds (b'a' ∷ (replicate 147 0 ++ (codes "000541" ++ replicate 358 0))) ≡ true
unfolding checksum_holds tar_oct_to_ulong
small_header = refl

prefixed :
    tar_build_path (codes "name" ++ (replicate 341 0 ++ (codes "dir" ++ replicate 164 0)))
    ≡ codes "dir/name"
unfolding tar_build_path
prefixed = refl

nul_block : tar_is_zero_block (replicate 512 0) ≡ true
unfolding tar_is_zero_block
nul_block = refl

abbrev small_file : Stat
small_file = record {
  mode = 33188;
  uid = 1000;
  gid = 100;
  mtime = 1700000000;
  size = 3;
  link = none;
}

tar_write_header_example :
    IsHeaderOf (codes "dir/a.txt") small_file (tar_write_header (codes "dir/a.txt") small_file)
tar_write_header_example =
    tar_write_header-IsHeaderOf (codes "dir/a.txt") small_file (omega arith) (omega arith) tt
      (omega arith)

-- The archive of one file, in memory.
abbrev archive : Bytes
archive =
    tar_create_file disk (codes "dir/a.txt") small_file (some (codes "abc"))
    ++ (zero_block ++ zero_block)

tar_extract-tar_create_file_example : tar_extract disk (λ _. true) (3 + 0) archive ≡ (
  tar_mkdirs (codes "dir/a.txt")
      ++ created (codes "dir/a.txt") (mode_or (33188 % 4096) 420)
        ∷ (block_writes (data_blocks 3) (codes "abc")
            ++ changed_mode (codes "dir/a.txt") (mode_or (33188 % 4096) 420) ∷ []),
  some 0,
)
tar_extract-tar_create_file_example =
    tar_extract-tar_create_file (codes "dir/a.txt") small_file (omega arith) (omega arith) refl tt
      disk disk disk_delivers_all disk_delivers_all (λ _. true) (codes "abc") 0 (codes "abc")
      archive refl (cons-ne-nil _ _) refl (omega arith) refl refl
