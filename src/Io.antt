-- ===== src/Io.antt =====
-- include/io.h: reading lines through `sys_read`, one byte at a time, and the two tables that
-- `uid_to_name` and its sisters search.
--
-- `sys_read` is the kernel's: a parameter, whose documented behaviour is the record `Delivers`.
pub mod Lines
pub mod Passwd
pub mod Mode
pub mod Password
use qoot.Base.{
  ℕ, zero, suc, ◌-◌, ◌<◌, ◌≤◌, ◌≡◌, List, [], ◌∷◌, ◌++◌, Bytes, length, ◌==◌, if◌then◌else◌,
}
use qoot.Base.Int.{ℤ, pos, negsuc}

-- What `sys_read` returns: the bytes put in the buffer (none at the end of the file), or -(e + 1).
pub data Chunk : Type 0 where
  got : Bytes → Chunk
  failed : ℕ → Chunk

-- A file descriptor: its state, and `sys_read(fd, buf, n)`.
pub record Reader : Type 1 where
  pub State : Type 0
  pub sys_read : State → ℕ → Chunk × State

-- read(2) on an open regular file: some bytes of what is left, at most as many as asked for, and
-- none only at the end of the file.
pub record Delivers (k : Reader) : Type 1 where
  pub content : k.State → Bytes
  pub chunk : (s : k.State) (n : ℕ) → Bytes
  pub delivers : (s : k.State) (n : ℕ) → (k.sys_read s n).0 ≡ got (chunk s n)
  pub in_order : (s : k.State) (n : ℕ) → content s ≡ chunk s n ++ content (k.sys_read s n).1
  pub fits : (s : k.State) (n : ℕ) → length (chunk s n) ≤ n
  pub ends : (s : k.State) (n : ℕ) → 0 < n → chunk s n ≡ [] → content s ≡ []

-- The returned `int`, the text in `buf`, and the descriptor's new state.
pub record Line (S : Type 0) : Type 0 where
  pub result : ℤ
  pub text : Bytes
  pub rest : S

module _ (k : Reader) where
  -- `if (r <= 0) { if (i == 0) return (int)r; break; }`
  unfoldable pub stop : Bytes → ℤ → k.State → Line k.State
  stop [] r s = record { result = r; text = []; rest = s }
  stop (c ∷ buf) r s = record { result = pos (length (c ∷ buf)); text = c ∷ buf; rest = s }

  -- The loop of `read_line`, on the room that is left in the buffer.
  unfoldable pub read_loop : ℕ → k.State → Bytes → Line k.State
  unfolding stop
  read_loop zero s buf = record { result = pos (length buf); text = buf; rest = s }
  read_loop (suc room) s buf =
      let (r, s') = k.sys_read s 1 in
      elim r [
        | failed e ↦ stop buf (negsuc e) s'
        | got [] ↦ stop buf (pos 0) s'
        | got (c ∷ _) ↦
            let more = read_loop room s' (buf ++ c ∷ []) in
            if c == 10 then record { result = pos (length buf); text = buf; rest = s' } else more
      ]

  unfoldable pub read_line : k.State → ℕ → Line k.State
  unfolding read_loop
  read_line s max = read_loop (max - 1) s []

  -- `while (read_line(fd, line, max) > 0) …`: the lines that the body sees, on fuel.
  unfoldable pub read_lines : ℕ → k.State → ℕ → List Bytes
  unfolding read_line
  read_lines zero s max = []
  read_lines (suc f) s max =
      let l = read_line s max in
      let more = l.text ∷ read_lines f l.rest max in elim l.result [ pos (suc n) ↦ more | _ ↦ [] ]
