-- ===== src/Io/Password.antt =====
-- include/io.h: `read_password`. The changes of the terminal's echo, the prompt and the final
-- newline are not modelled; `opened` is what `sys_open` gave for /dev/tty.
use qoot.Base.{
  ℕ, zero, suc, ◌-◌, ◌||◌, [], ◌∷◌, ◌++◌, Option, none, some, Bytes, length, ◌==◌, if◌then◌else◌,
}
use qoot.Base.Int.{ℤ, pos, negsuc}
use qoot.Io.{got, failed, Reader}

module _ (k : Reader) where
  -- The loop, on the room that is left in the buffer.
  unfoldable pub password_loop : ℕ → k.State → Bytes → Bytes
  password_loop zero s buf = buf
  password_loop (suc room) s buf =
      let r = k.sys_read s 1 in
      elim r.0 as (λ _. Bytes) [
        | failed e ↦ buf
        | got [] ↦ buf
        | got (c ∷ _) ↦
            let more = password_loop room r.1 (buf ++ c ∷ []) in
            if c == 10 || c == 13 then buf else more
      ]

  -- The result, and the password in the buffer.
  unfoldable pub read_password : Option k.State → ℕ → ℤ × Bytes
  unfolding password_loop
  read_password none max = (negsuc 0, [])
  read_password (some tty) max = let buf = password_loop (max - 1) tty [] in (pos (length buf), buf)
