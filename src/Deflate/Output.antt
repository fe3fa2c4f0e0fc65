-- ===== src/Deflate/Output.antt =====
-- include/deflate.h: the output buffer, the window, and the loops that emit bytes.
pub mod Window
use qoot.Base.{
  ℕ, zero, suc, ◌+◌, ◌-◌, ◌*◌, ◌%◌, ◌^◌, Bool, true, false, not, List, [], ◌∷◌, ◌++◌, Option, none,
  some, Bytes, length, get_or, set, take, drop, replicate, ltb, leb, ◌==◌, if◌then◌else◌,
}
use qoot.Base.Int.{ℤ, pos, negsuc}
use qoot.Deflate.{crc32_update}

-- A result, the result -1, or no result yet.
pub data Result (A : Type 0) : Type 0 where
  done : A → Result A
  error : Result A
  stuck : Result A

infixl 5 ◌>>=◌
abbrev pub ◌>>=◌ : {A B : Type 0} → Result A → (A → Result B) → Result B
done a >>= f = f a
error >>= f = error
stuck >>= f = stuck

-- The descriptor that is written to: its state, and `sys_write(fd, p, n)`.
pub record Writer : Type 1 where
  pub State : Type 0
  pub sys_write : State → Bytes → ℤ × State

-- `inflate_out_t`; `outbuf` holds the first `outpos` bytes of the buffer.
pub record Out (S : Type 0) : Type 0 where
  pub fd : S
  pub outbuf : Bytes
  pub window : Bytes
  pub winpos : ℕ
  pub total : ℕ
  pub crc : ℕ

module _ (w : Writer) where
  -- The loop of `inf_flush`, at most one round for each byte.
  unfoldable pub write_loop : ℕ → Bytes → w.State → Result w.State
  write_loop f [] s = done s
  write_loop zero (c ∷ p) s = stuck
  write_loop (suc f) (c ∷ p) s =
      let r = w.sys_write s (c ∷ p) in
      elim r.0 as (λ _. Result w.State) [
        | pos (suc n) ↦ write_loop f (drop (suc n) (c ∷ p)) r.1
        | _ ↦ error
      ]

  unfoldable pub inf_flush : Out w.State → Result (Out w.State)
  inf_flush o = write_loop (length o.outbuf) o.outbuf o.fd >>= λ fd. done record {
    fd = fd;
    outbuf = [];
    window = o.window;
    winpos = o.winpos;
    total = o.total;
    crc = o.crc;
  }

  unfoldable pub inf_emit : Out w.State → ℕ → Result (Out w.State)
  inf_emit o byte =
      let o' : Out w.State = record {
        fd = o.fd;
        outbuf = o.outbuf ++ byte ∷ [];
        window = set o.window (o.winpos % 32768) byte;
        winpos = (o.winpos + 1) % 2 ^ 64;
        total = (o.total + 1) % 2 ^ 64;
        crc = crc32_update o.crc byte;
      } in
      if leb 8192 (length o'.outbuf) then inf_flush o' else done o'

  -- The bytes of a stored block.
  unfoldable pub emit_all : Out w.State → Bytes → Result (Out w.State)
  emit_all o [] = done o
  emit_all o (byte ∷ bytes) = inf_emit o byte >>= λ o'. emit_all o' bytes

  -- The loop over the bytes of a match.
  unfoldable pub copy_match : ℕ → ℕ → Out w.State → Result (Out w.State)
  copy_match zero distance o = done o
  copy_match (suc n) distance o =
      inf_emit o (get_or o.window ((o.winpos + 2 ^ 64 - distance) % 32768) 0) >>= λ o'.
      copy_match n distance o'
