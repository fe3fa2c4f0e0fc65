-- ===== src/Wget/Http/Body.antt =====
-- tools/wget.c: a response whose header comes in one piece.
use mathlib.Core.List.{cons-eq-cons}
use qoot.Base.{
  ℕ, zero, suc, ◌+◌, ◌^◌, ◌<◌, ◌≤◌, ◌≡◌, ◌≢◌, refl, ap, sym, subst, ◌∙◌, Bool, true, List, [], ◌∷◌,
  ◌++◌, append_assoc, append-nil, some, Bytes, length, length-append, leb, All, arith,
  if◌then◌else◌, ne→==, lt→ltb, Bool-cases, inl, inr,
}
use qoot.Io.Passwd.Laws.{cstr-IsCString}
use qoot.Io.{Reader, Delivers, got}
use qoot.Str.{IsCString, is_digit}
use qoot.Str.Digits.{uint_to_str}
use qoot.Str.RoundTrip.{str_to_uint-uint_to_str}
use qoot.Str.Search.{Lacks, str_chr_skip}
use qoot.Wget.Http.{header_end, body_loop, response_loop, save, failure, status_code, is_error}

-- The lines of a header, with a line end between them.
abbrev pub header : Bytes → List Bytes → Bytes
header line [] = line
header line (next ∷ lines) = line ++ 13 ∷ 10 ∷ header next lines

-- A line of a header: not empty, and with no carriage return.
abbrev pub IsField : Bytes → Type 0
IsField line = (line ≢ []) × Lacks 13 line

header_end_skip :
    (c : ℕ) (t head body : Bytes)
    → header_end t ≡ some (head, body)
    → c ≢ 13
    → header_end (c ∷ t) ≡ some (c ∷ head, body)
unfolding header_end
header_end_skip c [] head body e n = absurd cc
header_end_skip c (x ∷ []) head body e n = absurd cc
header_end_skip c (x ∷ y ∷ []) head body e n = absurd cc
header_end_skip c (x ∷ y ∷ z ∷ []) head body e n = absurd cc
header_end_skip c (x ∷ y ∷ z ∷ w ∷ t) head body e n = rw (ne→== c 13 n, e)

-- A line end with a line behind it.
header_end_next :
    (c : ℕ) (t head body : Bytes)
    → header_end (c ∷ t) ≡ some (head, body)
    → c ≢ 13
    → header_end (13 ∷ 10 ∷ c ∷ t) ≡ some (13 ∷ 10 ∷ head, body)
unfolding header_end
header_end_next c [] head body e n = absurd cc
header_end_next c (x ∷ t) head body e n =
    let further = header_end_skip 10 (c ∷ x ∷ t) head body e (omega arith) in
    rw (ne→== c 13 n, further)

header_end_field :
    (line t head body : Bytes)
    → Lacks 13 line
    → header_end t ≡ some (head, body)
    → header_end (line ++ t) ≡ some (line ++ head, body)
header_end_field [] t head body l e = e
header_end_field (c ∷ line) t head body l e =
    header_end_skip c (line ++ t) (line ++ head) body (header_end_field line t head body l.1 e) l.0

header_cons :
    (c : ℕ) (line : Bytes) (lines : List Bytes) → header (c ∷ line) lines ≡ c ∷ header line lines
header_cons c line [] = refl
header_cons c line (next ∷ lines) = refl

header_end-header :
    (line : Bytes) (lines : List Bytes) (body : Bytes)
    → All IsField (line ∷ lines)
    → header_end (header line lines ++ 13 ∷ 10 ∷ 13 ∷ 10 ∷ body) ≡ some (header line lines, body)
header_end-header line [] body ok =
    subst (λ h. header_end (line ++ 13 ∷ 10 ∷ 13 ∷ 10 ∷ body) ≡ some (h, body)) (append-nil line)
      (header_end_field line (13 ∷ 10 ∷ 13 ∷ 10 ∷ body) [] body ok.0.1 (unfold header_end in refl))
header_end-header line ([] ∷ lines) body ok = absurd (ok.1.0.0 refl)
header_end-header line ((c ∷ next) ∷ lines) body ok =
    let ends = 13 ∷ 10 ∷ 13 ∷ 10 ∷ body in
    let later : header_end (c ∷ (header next lines ++ ends)) ≡ some (c ∷ header next lines, body) =
      subst (λ h. header_end (h ++ ends) ≡ some (h, body)) (header_cons c next lines)
        (header_end-header (c ∷ next) lines body ok.1) in
    let from_end =
      header_end_next c (header next lines ++ ends) (c ∷ header next lines) body later ok.1.0.1.0 in
    rw (append_assoc line (13 ∷ 10 ∷ header (c ∷ next) lines) ends, header_cons c next lines)
      (header_end_field line (13 ∷ 10 ∷ c ∷ (header next lines ++ ends))
        (13 ∷ 10 ∷ c ∷ header next lines) body ok.0.1 from_end)

-- What follows the first line of a header.
abbrev behind : List Bytes → Bytes
behind [] = []
behind (next ∷ lines) = 13 ∷ 10 ∷ header next lines

header-behind : (line : Bytes) (lines : List Bytes) → header line lines ≡ line ++ behind lines
header-behind line [] = sym (append-nil line)
header-behind line (next ∷ lines) = refl

split_append :
    (front back b rest : Bytes)
    → front ++ back ≡ b ++ rest
    → length front ≤ length b
    → (t : Bytes) × (b ≡ front ++ t) × (back ≡ t ++ rest)
split_append [] back b rest e h = (b, refl, e)
split_append (x ∷ front) back [] rest e h = absurd (omega arith)
split_append (x ∷ front) back (y ∷ b) rest e h =
    let (ex, et) = cons-eq-cons.0 e in
    let (t, eb, er) = split_append front back b rest et (omega arith) in (t, cc, er)

-- The status line, with the server's version of the protocol, the status and the reason.
abbrev pub status_line : Bytes → ℕ → Bytes → Bytes
status_line version status reason = version ++ 32 ∷ ((uint_to_str status).0 ++ 32 ∷ reason)

status_code-header :
    (version : Bytes) (status : ℕ) (reason : Bytes) (lines : List Bytes)
    → Lacks 32 version
    → IsCString (header (status_line version status reason) lines)
    → status < 2 ^ 32
    → status_code (header (status_line version status reason) lines) ≡ status
unfolding status_code
status_code-header version status reason lines free c fits =
    let later : Bytes = 32 ∷ (reason ++ behind lines) in
    let shape : header (status_line version status reason) lines
        ≡ version ++ 32 ∷ ((uint_to_str status).0 ++ later) =
      header-behind (status_line version status reason) lines
      ∙ append_assoc version (32 ∷ ((uint_to_str status).0 ++ 32 ∷ reason)) (behind lines)
      ∙ ap (λ (t : Bytes). version ++ 32 ∷ t)
          (append_assoc (uint_to_str status).0 (32 ∷ reason) (behind lines)) in
    rw
      (
        status_code,
        cstr-IsCString (header (status_line version status reason) lines) c,
        shape,
        str_chr_skip version ((uint_to_str status).0 ++ later) 32 free,
      )
      (str_to_uint-uint_to_str status later fits (unfold is_digit in refl))

module _ (k : Reader) (d : Delivers k) where
  body_loop-content :
      (f : ℕ) (s : k.State) → length (d.content s) < f → body_loop k f s ≡ d.content s
  unfolding body_loop
  body_loop-content zero s h = elim h [ ]
  body_loop-content (suc f) s h =
      each (d.chunk s 8192) (d.delivers s 8192) (d.in_order s 8192) (d.ends s 8192 (omega arith))
        (body_loop-content f (k.sys_read s 8192).1)
    where
      each :
          (b : Bytes)
          → (k.sys_read s 8192).0 ≡ got b
          → d.content s ≡ b ++ d.content (k.sys_read s 8192).1
          → (b ≡ [] → d.content s ≡ [])
          → (length (d.content (k.sys_read s 8192).1) < f
              → body_loop k f (k.sys_read s 8192).1 ≡ d.content (k.sys_read s 8192).1)
          → body_loop k (suc f) s ≡ d.content s
      each [] g o e ih = rw (g, body_loop) (sym (e refl))
      each (c ∷ b) g o e ih =
          let rest = d.content (k.sys_read s 8192).1 in
          let shorter : length rest < f = omega (arith, ap length o, length-append (c ∷ b) rest) in
          rw (g, body_loop, ih shorter) (sym o)

  found_header :
      (creates : Bool) (f : ℕ) (s : k.State) (b head start : Bytes)
      → (k.sys_read s 8192).0 ≡ got b
      → header_end b ≡ some (head, start)
      → response_loop k creates (suc f) s ≡ save k creates f head start (k.sys_read s 8192).1
  unfolding response_loop header_end
  found_header creates f s [] head start g e = absurd cc
  found_header creates f s (c ∷ b) head start g e = rw (g, response_loop, e)

  saved_file :
      (creates : Bool) (f : ℕ) (s : k.State) (head start body : Bytes) (status : ℕ)
      → status_code head ≡ status
      → status < 1000
      → start ++ body_loop k f s ≡ body
      → save k creates f head start s ≡ (
          if leb 400 status
          then failure
          else if creates
          then record { result = 0; created = true; written = body }
          else failure)
  unfolding save is_error
  saved_file creates f s head start body status code small stored =
      rw (code, stored, lt→ltb status (2 ^ 31) (omega arith))
        (elim (Bool-cases (leb 400 status)) [ inl big ↦ rw big | inr ok ↦ rw ok ])

  -- Under -q, of a response whose header has come whole with the first piece, in lines that are
  -- strings, not empty and without a carriage return, the first of them with a status below 1000
  -- behind a version without a blank, the body is handed to sys_write whole, in whatever pieces it
  -- comes, and wget returns 0; it creates no file and returns 1 if the status is 400 or more or the
  -- file cannot be made.
  pub response_loop-Saved :
      (creates : Bool) (f : ℕ) (s : k.State) (version : Bytes) (status : ℕ) (reason : Bytes)
      (lines : List Bytes) (body : Bytes)
      → d.content s ≡ header (status_line version status reason) lines ++ 13 ∷ 10 ∷ 13 ∷ 10 ∷ body
      → All IsField (status_line version status reason ∷ lines)
      → IsCString (header (status_line version status reason) lines)
      → Lacks 32 version
      → status < 1000
      → length (header (status_line version status reason) lines) + 4 ≤ length (d.chunk s 8192)
      → length body < f
      → response_loop k creates (suc f) s ≡ (
          if leb 400 status
          then failure
          else if creates
          then record { result = 0; created = true; written = body }
          else failure)
  unfolding response_loop
  response_loop-Saved creates f s version status reason lines body e ok c free small whole enough =
      let line = status_line version status reason in
      let front : Bytes = header line lines ++ 13 ∷ 10 ∷ 13 ∷ 10 ∷ [] in
      let rest = d.content (k.sys_read s 8192).1 in
      let same : front ++ body ≡ d.chunk s 8192 ++ rest =
        append_assoc (header line lines) (13 ∷ 10 ∷ 13 ∷ 10 ∷ []) body
        ∙ sym e
        ∙ d.in_order s 8192 in
      let (start, piece, left) =
        split_append front body (d.chunk s 8192) rest same
          (omega (arith, length-append (header line lines) (13 ∷ 10 ∷ 13 ∷ 10 ∷ []))) in
      let found = header_end-header line lines start ok in
      let code = status_code-header version status reason lines free c (omega arith) in
      let arrived =
        d.delivers s 8192
        ∙ ap got (piece ∙ append_assoc (header line lines) (13 ∷ 10 ∷ 13 ∷ 10 ∷ []) start) in
      let shorter : length rest < f = omega (arith, ap length left, length-append start rest) in
      let saved = body_loop-content f (k.sys_read s 8192).1 shorter in
      let stored : start ++ body_loop k f (k.sys_read s 8192).1 ≡ body = rw saved (sym left) in
      found_header creates f s _ (header line lines) start arrived found
      ∙ saved_file creates f (k.sys_read s 8192).1 (header line lines) start body status code small
          stored
