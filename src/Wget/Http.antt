-- ===== src/Wget/Http.antt =====
-- tools/wget.c: the response, over the socket's `sys_recvfrom`, of a run with -q: the length that the
-- header tells is only printed, without -q, and is not modelled.
pub mod Body
pub mod Split
use qoot.Base.{
  ℕ, zero, suc, ◌+◌, ◌-◌, ◌^◌, Bool, true, false, ◌&&◌, List, [], ◌∷◌, ◌++◌, Option, none, some,
  Bytes, length, drop, ltb, leb, ◌==◌, if◌then◌else◌,
}
use qoot.Io.{Reader, got, failed}
use qoot.Str.{cstr, str_chr}
use qoot.Str.Parse.{str_to_uint}

-- `i < n - 3`, and the four bytes at `i`: what stands before them, and behind.
unfoldable pub header_end : Bytes → Option (Bytes × Bytes)
header_end (a ∷ b ∷ c ∷ d ∷ buf) =
    let later : Option (Bytes × Bytes) = elim (header_end (b ∷ c ∷ d ∷ buf)) [
      | some (head, body) ↦ some (a ∷ head, body)
      | none ↦ none
    ] in
    if a == 13 && b == 10 && c == 13 && d == 10 then some ([], buf) else later
header_end buf = none

-- The number behind the first blank, and 0 if there is none.
unfoldable pub status_code : Bytes → ℕ
status_code head = elim (str_chr (cstr head) b' ') [ some sp ↦ str_to_uint (drop 1 sp) | none ↦ 0 ]

-- `status_code >= 400`, of an `int`
unfoldable pub is_error : ℕ → Bool
is_error status = leb 400 status && ltb status (2 ^ 31)

-- What is returned, whether the file was created, and the bytes that were handed to `sys_write` for
-- it, whose result the code does not look at.
pub record Saved : Type 0 where
  pub result : ℕ
  pub created : Bool
  pub written : Bytes

abbrev pub failure : Saved
failure = record { result = 1; created = false; written = [] }

module _ (k : Reader) where
  -- The loop behind the header, for at most `f` pieces.
  unfoldable pub body_loop : ℕ → k.State → Bytes
  body_loop zero s = []
  body_loop (suc f) s =
      let r = k.sys_read s 8192 in
      let more = body_loop f r.1 in
      elim r.0 as (λ _. Bytes) [ failed e ↦ [] | got [] ↦ [] | got (c ∷ buf) ↦ (c ∷ buf) ++ more ]

  -- What follows a header that was found: the status, the file, and the rest of the body.
  unfoldable pub save : Bool → ℕ → Bytes → Bytes → k.State → Saved
  unfolding status_code is_error body_loop
  save creates f head body s =
      if is_error (status_code head)
      then failure
      else if creates
      then record { result = 0; created = true; written = body ++ body_loop f s }
      else failure

  -- The loop up to a header; `creates` tells whether `sys_open` makes the file.
  unfoldable pub response_loop : Bool → ℕ → k.State → Saved
  unfolding save header_end
  response_loop creates zero s = record { result = 0; created = false; written = [] }
  response_loop creates (suc f) s =
      let r = k.sys_read s 8192 in
      let more = response_loop creates f r.1 in
      elim r.0 as (λ _. Saved) [
        | failed e ↦ record { result = 0; created = false; written = [] }
        | got [] ↦ record { result = 0; created = false; written = [] }
        | got (c ∷ buf) ↦ (elim (header_end (c ∷ buf)) as (λ _. Saved) [
          | some (head, body) ↦ save creates f head body r.1
          | none ↦ more
        ])
      ]
