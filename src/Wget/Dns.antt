-- ===== src/Wget/Dns.antt =====
-- tools/wget.c: the query to a name server, and its reply.
use Prim.Native.Nat.{bit_or, bit_and}
use qoot.Base.{
  ℕ, zero, suc, ◌+◌, ◌*◌, ◌%◌, ◌^◌, Bool, ◌&&◌, not, List, [], ◌∷◌, ◌++◌, Option, none, some, Bytes,
  length, get_or, ltb, ◌==◌, if◌then◌else◌,
}
use qoot.Sh.Words.{pieces}
use qoot.Wget.Address.{packed}

-- The labels of the name, each behind its length.
unfoldable pub labels : List Bytes → Bytes
labels [] = []
labels (l ∷ ls) = length l % 256 ∷ l ++ labels ls

unfoldable pub query : Bytes → Bytes
unfolding labels
query host =
    0
    ∷ 1
    ∷ 1
    ∷ 0
    ∷ 0
    ∷ 1
    ∷ 0
    ∷ 0
    ∷ 0
    ∷ 0
    ∷ 0
    ∷ 0
    ∷ (labels (pieces b'.' (length host) host) ++ 0 ∷ 0 ∷ 1 ∷ 0 ∷ 1 ∷ [])

module _ (resp : Bytes) (rlen : ℕ) where
  -- `resp[i]`, in an array that the reply fills up to `rlen`.
  abbrev pub at : ℕ → ℕ
  at i = get_or resp i 0

  -- `(resp[i] & 0xC0) == 0xC0`
  abbrev pub is_pointer : ℕ → Bool
  is_pointer i = bit_and (at i) 192 == 192

  -- `(resp[i] << 8) | resp[i + 1]`
  abbrev pub big_endian_at : ℕ → ℕ
  big_endian_at i = bit_or (at i * 2 ^ 8) (at (i + 1))

  -- The loop over the question's name; every round moves on.
  unfoldable pub question_loop : ℕ → ℕ → ℕ
  question_loop zero offset = offset
  question_loop (suc f) offset =
      let next = question_loop f (offset + (at offset + 1)) in
      if ltb offset rlen && not (at offset == 0)
      then (if is_pointer offset then offset + 2 else next)
      else offset

  -- The loop over the name of an answer.
  unfoldable pub name_loop : ℕ → ℕ → ℕ
  name_loop zero offset = offset
  name_loop (suc f) offset =
      let next = name_loop f (offset + (at offset + 1)) in
      if ltb offset rlen && not (at offset == 0) then next else offset

  unfoldable pub skip_name : ℕ → ℕ
  unfolding name_loop
  skip_name offset = if is_pointer offset then offset + 2 else name_loop rlen offset + 1

  -- The loop over the answers that are left.
  unfoldable pub answers : ℕ → ℕ → Option ℕ
  unfolding skip_name
  answers zero offset = none
  answers (suc count) offset =
      let o = skip_name offset in
      let rdlen = big_endian_at (o + 8) in
      let next = answers count (o + 10 + rdlen) in
      if ltb offset rlen
      then (if ltb rlen (o + 10)
          then none
          else if big_endian_at o == 1 && rdlen == 4
          then some (packed (at (o + 10)) (at (o + 11)) (at (o + 12)) (at (o + 13)))
          else next)
      else none

  -- Behind the header, and the question: its name, a zero byte, type and class.
  unfoldable pub behind_question : ℕ
  unfolding question_loop
  behind_question =
      let o = question_loop rlen 12 in if ltb o rlen && at o == 0 then o + 1 + 4 else o + 4

  unfoldable pub reply_address : Option ℕ
  unfolding answers behind_question
  reply_address = if ltb rlen 12 then none else answers (big_endian_at 6) behind_question
