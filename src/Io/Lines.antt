-- ===== src/Io/Lines.antt =====
-- include/io.h: the lines that `read_line` hands to its caller's loop.
use mathlib.Core.List.{cons-ne-nil, cons-eq-cons}
use qoot.Base.{
  ℕ, zero, suc, ◌+◌, ◌-◌, ◌<◌, ◌≤◌, ◌≡◌, ◌≢◌, refl, ap, sym, ◌∙◌, false, List, [], ◌∷◌, ◌++◌,
  append_assoc, append-nil, Bytes, length, All, arith, ne→==, ◌==◌,
}
use qoot.Base.Int.{pos}
use qoot.Io.{got, Reader, Delivers, Line, read_loop, read_line, read_lines}
use qoot.Str.Search.{Lacks}

-- A text of lines, each with its newline.
abbrev pub unlines : List Bytes → Bytes
unlines [] = []
unlines (l ∷ ls) = l ++ 10 ∷ unlines ls

-- A line that the loop of a caller sees: not empty, and shorter than the buffer.
abbrev pub Fits : ℕ → Bytes → Type 0
Fits max l = (l ≢ []) × Lacks 10 l × (length l + 1 < max)

module _ (k : Reader) (d : Delivers k) where
  -- A one-byte read takes the next byte.
  next_byte :
      (s : k.State) (c : ℕ) (t : Bytes)
      → d.content s ≡ c ∷ t
      → ((k.sys_read s 1).0 ≡ got (c ∷ [])) × (d.content (k.sys_read s 1).1 ≡ t)
  next_byte s c t e =
      one_byte (d.chunk s 1) (d.delivers s 1) (d.in_order s 1) (d.fits s 1)
        (d.ends s 1 (omega arith))
    where
      one_byte :
          (b : Bytes)
          → (k.sys_read s 1).0 ≡ got b
          → d.content s ≡ b ++ d.content (k.sys_read s 1).1
          → length b ≤ 1
          → (b ≡ [] → d.content s ≡ [])
          → ((k.sys_read s 1).0 ≡ got (c ∷ [])) × (d.content (k.sys_read s 1).1 ≡ t)
      one_byte [] g o f n = absurd (cons-ne-nil c t (sym e ∙ n refl))
      one_byte (x ∷ []) g o f n =
          let (ex, et) = cons-eq-cons.0 (sym e ∙ o) in (g ∙ ap (λ y. got (y ∷ [])) (sym ex), sym et)
      one_byte (x ∷ y ∷ b) g o f n = absurd (omega arith)

  end_of_file :
      (s : k.State)
      → d.content s ≡ []
      → ((k.sys_read s 1).0 ≡ got []) × (d.content (k.sys_read s 1).1 ≡ [])
  end_of_file s e = no_byte (d.chunk s 1) (d.delivers s 1) (d.in_order s 1)
    where
      no_byte :
          (b : Bytes)
          → (k.sys_read s 1).0 ≡ got b
          → d.content s ≡ b ++ d.content (k.sys_read s 1).1
          → ((k.sys_read s 1).0 ≡ got []) × (d.content (k.sys_read s 1).1 ≡ [])
      no_byte [] g o = (g, sym o ∙ e)
      no_byte (x ∷ b) g o = absurd (cons-ne-nil x _ (sym o ∙ e))

  -- The loop's outcome: the text, its length as the result, and what is left of the file.
  abbrev Gives : Line k.State → Bytes → Bytes → Type 0
  Gives out text left =
      (out.result ≡ pos (length text)) × (out.text ≡ text) × (d.content out.rest ≡ left)

  read_loop_line :
      (l r buf : Bytes) (room : ℕ) (s : k.State)
      → d.content s ≡ l ++ 10 ∷ r
      → Lacks 10 l
      → length l < room
      → Gives (read_loop k room s buf) (buf ++ l) r
  unfolding read_loop
  read_loop_line l r buf zero s e free fits = elim fits [ ]
  read_loop_line [] r buf (suc room) s e free fits =
      let (g, left) = next_byte s 10 r e in rw (g, read_loop, append-nil) (refl, refl, left)
  read_loop_line (c ∷ l) r buf (suc room) s e free fits =
      let (g, left) = next_byte s c (l ++ 10 ∷ r) e in
      let go_on : (c == 10) ≡ false = ne→== c 10 free.0 in
      let (er, et, ec) =
        read_loop_line l r (buf ++ c ∷ []) room (k.sys_read s 1).1 left free.1 (omega arith) in
      let same : (buf ++ c ∷ []) ++ l ≡ buf ++ c ∷ l = append_assoc buf (c ∷ []) l in
      rw (g, read_loop, go_on) (er ∙ ap (λ t. pos (length t)) same, et ∙ same, ec)

  -- A line shorter than the buffer is read whole, and its newline is dropped.
  pub read_line_whole :
      (l r : Bytes) (max : ℕ) (s : k.State)
      → d.content s ≡ l ++ 10 ∷ r
      → Lacks 10 l
      → length l + 1 < max
      → Gives (read_line k s max) l r
  unfolding read_line
  read_line_whole l r max s e free fits = read_loop_line l r [] (max - 1) s e free (omega arith)

  -- Past the last byte the result is 0.
  pub read_line_end :
      (max : ℕ) (s : k.State) → d.content s ≡ [] → 1 < max → (read_line k s max).result ≡ pos 0
  unfolding read_line read_loop
  read_line_end max s e m =
      let room : max - 1 ≡ suc (max - 2) = omega arith in rw (room, read_loop, (end_of_file s e).0)

  -- There is nothing to read behind it either.
  pub read_line-past_end :
      (max : ℕ) (s : k.State) → d.content s ≡ [] → 1 < max → d.content (read_line k s max).rest ≡ []
  unfolding read_line read_loop
  read_line-past_end max s e m =
      let room : max - 1 ≡ suc (max - 2) = omega arith in
      rw (room, read_loop, (end_of_file s e).0) (end_of_file s e).1

  -- The first line is taken off, and the loop goes on behind it.
  pub read_lines-next :
      (l r : Bytes) (max f : ℕ) (s : k.State)
      → d.content s ≡ l ++ 10 ∷ r
      → Fits max l
      → (t : k.State) × (read_lines k (suc f) s max ≡ l ∷ read_lines k f t max)
  unfolding read_lines
  read_lines-next [] r max f s e fit = absurd (fit.0 refl)
  read_lines-next (c ∷ l) r max f s e fit =
      let (er, et, ec) = read_line_whole (c ∷ l) r max s e fit.1 fit.2 in
      ((read_line k s max).rest, rw (er, read_lines, et))

  read_lines_until :
      (ls : List Bytes) (tail : Bytes) (max f : ℕ) (s : k.State)
      → ((t : k.State) → d.content t ≡ tail → (read_line k t max).result ≡ pos 0)
      → d.content s ≡ unlines ls ++ tail
      → All (Fits max) ls
      → length ls < f
      → read_lines k f s max ≡ ls
  unfolding read_lines
  read_lines_until ls tail max zero s stops e fit fuel = elim fuel [ ]
  read_lines_until [] tail max (suc f) s stops e fit fuel = rw (stops s e, read_lines)
  read_lines_until ([] ∷ ls) tail max (suc f) s stops e fit fuel = absurd (fit.0.0 refl)
  read_lines_until ((c ∷ l) ∷ ls) tail max (suc f) s stops e fit fuel =
      let whole : d.content s ≡ (c ∷ l) ++ 10 ∷ (unlines ls ++ tail) =
        e ∙ append_assoc (c ∷ l) (10 ∷ unlines ls) tail in
      let (er, et, ec) = read_line_whole (c ∷ l) (unlines ls ++ tail) max s whole fit.0.1 fit.0.2 in
      let rest = (read_line k s max).rest in
      let more : read_lines k f rest max ≡ ls =
        read_lines_until ls tail max f rest stops ec fit.1 (omega arith) in
      rw (er, read_lines, et, more)

  -- A file of non-empty lines, each shorter than the buffer by two bytes at least, is read line by
  -- line to its end.
  pub read_lines-unlines :
      (ls : List Bytes) (max f : ℕ) (s : k.State)
      → d.content s ≡ unlines ls
      → All (Fits max) ls
      → 1 < max
      → length ls < f
      → read_lines k f s max ≡ ls
  read_lines-unlines ls max f s e fit m fuel =
      read_lines_until ls [] max f s (λ t et. read_line_end max t et m) (rw append-nil e) fit fuel

  -- A blank line ends the reading: what follows it is never seen.
  pub read_lines_blank :
      (ls : List Bytes) (hidden : Bytes) (max f : ℕ) (s : k.State)
      → d.content s ≡ unlines ls ++ 10 ∷ hidden
      → All (Fits max) ls
      → 1 < max
      → length ls < f
      → read_lines k f s max ≡ ls
  read_lines_blank ls hidden max f s e fit m fuel =
      read_lines_until ls (10 ∷ hidden) max f s
        (λ t et. (read_line_whole [] hidden max t et tt m).0) e fit fuel
