-- ===== src/Tar/Create/Blocks.antt =====
-- tools/tar.c: the data of a file in an archive.
use qoot.Base.{
  ℕ, zero, suc, ◌+◌, ◌-◌, ◌*◌, ◌/◌, ◌%◌, ◌^◌, ◌<◌, ◌≤◌, ◌≡◌, refl, ap, sym, ◌∙◌, inl, inr, false,
  [], ◌∷◌, ◌++◌, Bytes, length, length-take, length-drop, take, drop, arith, take_whole, ne→==, ltb,
  ◌==◌, Bool-cases,
}
use qoot.Io.{got, Reader}
use qoot.Tar.Create.{asked, create_loop}
use qoot.Tar.Extract.{data_blocks}
use qoot.Tar.Extract.Data.{DeliversAll, zero_block, block_of, padded}

drop_whole : (n : ℕ) (text : Bytes) → length text ≤ n → drop n text ≡ []
drop_whole zero [] le = refl
drop_whole zero (x ∷ text) le = absurd (omega arith)
drop_whole (suc n) [] le = refl
drop_whole (suc n) (x ∷ text) le = drop_whole n text (omega arith)

take_twice : (n : ℕ) (text pad : Bytes) → take n (take n text ++ pad) ≡ take n (text ++ pad)
take_twice zero text pad = refl
take_twice (suc n) [] pad = refl
take_twice (suc n) (x ∷ text) pad = ap (◌∷◌ x) (take_twice n text pad)

create_nothing : (k : Reader) (f : ℕ) (s : k.State) → create_loop k f 0 s ≡ []
unfolding create_loop
create_nothing k zero s = refl
create_nothing k (suc f) s = refl

take-asked : (text : Bytes) → take (asked (length text)) text ≡ take 512 text
unfolding asked
take-asked text = elim (Bool-cases (ltb 512 (length text))) [
  | inl long ↦ rw long refl
  | inr short ↦
      rw short
        (take_whole (length text) text (omega arith) ∙ sym (take_whole 512 text (ground arith)))
]

drop-asked : (text : Bytes) → drop (asked (length text)) text ≡ drop 512 text
unfolding asked
drop-asked text = elim (Bool-cases (ltb 512 (length text))) [
  | inl long ↦ rw long refl
  | inr short ↦
      rw short
        (drop_whole (length text) text (omega arith) ∙ sym (drop_whole 512 text (ground arith)))
]

block_of-take : (text : Bytes) → block_of (take 512 text) ≡ block_of text
unfolding block_of
block_of-take text = take_twice 512 text zero_block

module _ (k : Reader) (all : DeliversAll k) where
  create_step :
      (f more : ℕ) (s : k.State) (buf : Bytes)
      → (k.sys_read s (asked (suc more))).0 ≡ got buf
      → (length buf == 0) ≡ false
      → create_loop k (suc f) (suc more) s
        ≡ block_of buf
          ++ create_loop k f (suc more - length buf) (k.sys_read s (asked (suc more))).1
  unfolding create_loop
  create_step f more s buf read some_byte = rw (read, create_loop) (rw some_byte refl)

  create_loop-padded :
      (n f : ℕ) (text : Bytes) (s : k.State)
      → all.content s ≡ text
      → length text ≤ n * 512
      → n * 512 < length text + 512
      → n ≤ f
      → create_loop k f (length text) s ≡ padded n text
  create_loop-padded zero zero [] s e le lt enough = create_nothing k zero s
  create_loop-padded zero (suc f) [] s e le lt enough = create_nothing k (suc f) s
  create_loop-padded zero f (x ∷ text) s e le lt enough = absurd (omega arith)
  create_loop-padded (suc n) zero text s e le lt enough = absurd (omega arith)
  create_loop-padded (suc n) (suc f) [] s e le lt enough = absurd (omega arith)
  create_loop-padded (suc n) (suc f) (x ∷ rest) s e le lt enough =
      let text : Bytes = x ∷ rest in
      let s1 = (k.sys_read s (asked (length text))).1 in
      let read =
        all.reads s (asked (length text))
        ∙ ap (λ (t : Bytes). got (take (asked (length text)) t)) e
        ∙ ap got (take-asked text) in
      let left =
        all.rest s (asked (length text)) ∙ ap (drop (asked (length text))) e ∙ drop-asked text in
      create_step f (length rest) s (take 512 text) read
        (ne→== (length (take 512 text)) 0 (omega (arith, length-take 512 text)))
      ∙ ap (λ (b : Bytes). b ++ create_loop k f (length text - length (take 512 text)) s1)
          (block_of-take text)
      ∙ ap (λ (m : ℕ). block_of text ++ create_loop k f m s1)
          (omega (arith, length-take 512 text, length-drop 512 text))
      ∙ ap (λ (t : Bytes). block_of text ++ t)
          (create_loop-padded n f (drop 512 text) s1 left (omega (arith, length-drop 512 text))
            (omega (arith, length-drop 512 text)) (omega arith))

  -- The loop that copies a file stores its data in whole blocks, and no more than there are.
  pub create_loop-data_blocks :
      (text : Bytes) (s : k.State)
      → all.content s ≡ text
      → length text < 8 ^ 11
      → create_loop k (length text) (length text) s ≡ padded (data_blocks (length text)) text
  unfolding data_blocks
  create_loop-data_blocks text s e small =
      create_loop-padded ((length text + 511) % 2 ^ 64 / 512) (length text) text s e (omega arith)
        (omega arith) (omega arith)
