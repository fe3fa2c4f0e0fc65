-- ===== src/Tar/Extract/Data.antt =====
-- tools/tar.c: the blocks of an archive, and the loop that copies the data of a file.
use qoot.Base.{
  ℕ, zero, suc, ◌-◌, ◌≡◌, refl, ap, sym, ◌∙◌, true, List, [], ◌∷◌, ◌++◌, append_assoc, Option, some,
  Bytes, length, length-append, length-take, length-drop, take, drop, replicate, arith,
}
use qoot.Io.{got, Reader}
use qoot.Tar.{tar_is_zero_block}
use qoot.Tar.Extract.{Action, wrote, copy_blocks}

-- read(2) on an open regular file, where it is not interrupted: as many bytes as are asked for, or
-- all that are left.
pub record DeliversAll (k : Reader) : Type 1 where
  pub content : k.State → Bytes
  pub reads : (s : k.State) (n : ℕ) → (k.sys_read s n).0 ≡ got (take n (content s))
  pub rest : (s : k.State) (n : ℕ) → content (k.sys_read s n).1 ≡ drop n (content s)

unfoldable pub zero_block : Bytes
zero_block = replicate 512 0

-- A block of a file's data, filled up with NULs where the file ends.
unfoldable pub block_of : Bytes → Bytes
block_of text = take 512 (text ++ zero_block)

-- The data of a file in blocks.
abbrev pub padded : ℕ → Bytes → Bytes
padded zero text = []
padded (suc n) text = block_of text ++ padded n (drop 512 text)

-- A write for each block.
abbrev pub block_writes : ℕ → Bytes → List Action
block_writes zero text = []
block_writes (suc n) text = wrote (take 512 text) ∷ block_writes n (drop 512 text)

pub length-zero_block : length zero_block ≡ 512
unfolding zero_block
length-zero_block = refl

pub zero_block_zero : tar_is_zero_block zero_block ≡ true
unfolding zero_block tar_is_zero_block
zero_block_zero = refl

length-block_of : (text : Bytes) → length (block_of text) ≡ 512
unfolding block_of
length-block_of text =
    omega (
      arith,
      length-take 512 (text ++ zero_block),
      length-append text zero_block,
      length-zero_block,
    )

take_back : (n : ℕ) (text pad : Bytes) → take (length text) (take n (text ++ pad)) ≡ take n text
take_back zero [] pad = refl
take_back zero (x ∷ text) pad = refl
take_back (suc n) [] pad = refl
take_back (suc n) (x ∷ text) pad = ap (◌∷◌ x) (take_back n text pad)

take-block_of : (text : Bytes) → take (length text) (block_of text) ≡ take 512 text
unfolding block_of
take-block_of text = take_back 512 text zero_block

take_front : (n : ℕ) (front back : Bytes) → length front ≡ n → take n (front ++ back) ≡ front
take_front zero [] back e = refl
take_front zero (x ∷ front) back e = absurd (omega (arith, e))
take_front (suc n) [] back e = absurd (omega (arith, e))
take_front (suc n) (x ∷ front) back e = ap (◌∷◌ x) (take_front n front back (omega (arith, e)))

drop_front : (n : ℕ) (front back : Bytes) → length front ≡ n → drop n (front ++ back) ≡ back
drop_front zero [] back e = refl
drop_front zero (x ∷ front) back e = absurd (omega (arith, e))
drop_front (suc n) [] back e = absurd (omega (arith, e))
drop_front (suc n) (x ∷ front) back e = drop_front n front back (omega (arith, e))

module _ (k : Reader) (all : DeliversAll k) where
  pub block_read :
      (block rest : Bytes) (s : k.State)
      → length block ≡ 512
      → all.content s ≡ block ++ rest
      → ((k.sys_read s 512).0 ≡ got block) × (all.content (k.sys_read s 512).1 ≡ rest)
  block_read block rest s size e = (
    all.reads s 512
        ∙ ap (λ (t : Bytes). got (take 512 t)) e
        ∙ ap got (take_front 512 block rest size),
    all.rest s 512 ∙ ap (drop 512) e ∙ drop_front 512 block rest size,
  )

  copy_step :
      (n remaining : ℕ) (block : Bytes) (s : k.State)
      → (k.sys_read s 512).0 ≡ got block
      → length block ≡ 512
      → copy_blocks k (suc n) remaining s ≡ (
        wrote (take remaining block) ∷ (copy_blocks k n (remaining - 512) (k.sys_read s 512).1).0,
        (copy_blocks k n (remaining - 512) (k.sys_read s 512).1).1,
      )
  unfolding copy_blocks
  copy_step n remaining block s read size = rw (read, copy_blocks) (rw size refl)

  pub copy_blocks-padded :
      (n : ℕ) (text rest : Bytes) (s : k.State)
      → all.content s ≡ padded n text ++ rest
      → (s' : k.State) × (copy_blocks k n (length text) s ≡ (block_writes n text, some s'))
        × (all.content s' ≡ rest)
  unfolding copy_blocks
  copy_blocks-padded zero text rest s e = (s, refl, e)
  copy_blocks-padded (suc n) text rest s e =
      let block = block_of text in
      let later = padded n (drop 512 text) in
      let (read, left) =
        block_read block (later ++ rest) s (length-block_of text)
          (e ∙ append_assoc block later rest) in
      let (s', written, after) =
        copy_blocks-padded n (drop 512 text) rest (k.sys_read s 512).1 left in
      let s1 = (k.sys_read s 512).1 in
      let first : List Action × Option k.State → List Action × Option k.State =
        λ (r : List Action × Option k.State). (wrote (take (length text) block) ∷ r.0, r.1) in
      let less : length text - 512 ≡ length (drop 512 text) = sym (length-drop 512 text) in
      (
        s',
        copy_step n (length text) block s read (length-block_of text)
            ∙ ap (λ (m : ℕ). first (copy_blocks k n m s1)) less
            ∙ ap first written
            ∙ ap (λ (b : Bytes). (wrote b ∷ block_writes n (drop 512 text), some s'))
                (take-block_of text),
        after,
      )
