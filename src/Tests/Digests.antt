-- ===== src/Tests/Digests.antt =====
-- include/md5.h and include/sha256.h: the digests of the empty text and of `abc`, and witnesses.
use qoot.Base.{◌≡◌, refl, [], ◌∷◌, codes, replicate, arith}
use qoot.Digest.{update}
use qoot.Digest.Blocks.{IsFed, digest_blocks, update-IsFed}
use qoot.Digest.Md5.{md5_transform, md5_init, md5_update, md5_final}
use qoot.Digest.Sha256.{sha256_init, sha256_update, sha256_final}

md5_abc :
    md5_final (md5_update md5_init (codes "abc"))
    ≡ 0x90 ∷ 0x1 ∷ 0x50 ∷ 0x98 ∷ 0x3c ∷ 0xd2 ∷ 0x4f ∷ 0xb0 ∷ 0xd6 ∷ 0x96 ∷ 0x3f ∷ 0x7d ∷ 0x28 ∷ 0xe1
      ∷ 0x7f ∷ 0x72 ∷ []
unfolding md5_final md5_update
md5_abc = refl

-- A text of 56 bytes needs a second block for its length.
md5_long :
    md5_final (md5_update md5_init (replicate 56 b'a'))
    ≡ 0x3b ∷ 0xc ∷ 0x8a ∷ 0xc7 ∷ 0x3 ∷ 0xf8 ∷ 0x28 ∷ 0xb0 ∷ 0x4c ∷ 0x6c ∷ 0x19 ∷ 0x70 ∷ 0x6 ∷ 0xd1
      ∷ 0x72 ∷ 0x18 ∷ []
unfolding md5_final md5_update
md5_long = refl

sha256_abc :
    sha256_final (sha256_update sha256_init (codes "abc"))
    ≡ 0xba ∷ 0x78 ∷ 0x16 ∷ 0xbf ∷ 0x8f ∷ 0x1 ∷ 0xcf ∷ 0xea ∷ 0x41 ∷ 0x41 ∷ 0x40 ∷ 0xde ∷ 0x5d ∷ 0xae
      ∷ 0x22 ∷ 0x23 ∷ 0xb0 ∷ 0x3 ∷ 0x61 ∷ 0xa3 ∷ 0x96 ∷ 0x17 ∷ 0x7a ∷ 0x9c ∷ 0xb4 ∷ 0x10 ∷ 0xff
      ∷ 0x61 ∷ 0xf2 ∷ 0x0 ∷ 0x15 ∷ 0xad ∷ []
unfolding sha256_final sha256_update
sha256_abc = refl

md5_init-IsFed : IsFed md5_transform md5_init.state [] md5_init
unfolding digest_blocks
md5_init-IsFed = record { counted = refl; buffered = refl; digested = refl; pending = refl }

update_example :
    IsFed md5_transform md5_init.state (codes "abc") (update md5_transform md5_init (codes "abc"))
update_example =
    update-IsFed md5_transform md5_init.state [] (codes "abc") md5_init (omega arith) md5_init-IsFed
