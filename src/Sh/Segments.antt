-- ===== src/Sh/Segments.antt =====
-- tools/sh.c: the line cut at its pipes, and the redirects among the words of a command.
pub mod Pipes
use qoot.Base.{
  ℕ, zero, suc, Bool, true, false, ◌&&◌, not, List, [], ◌∷◌, Option, none, some, Bytes, codes, take,
  ◌==◌, if◌then◌else◌,
}
use qoot.Str.{str_eq}

-- `in_sq` and `in_dq`, whether a byte stands between single or double quotes, behind that byte.
unfoldable pub in_sq_after : ℕ → Bool → Bool → Bool
in_sq_after c in_sq in_dq = if c == b'\'' && not in_dq then not in_sq else in_sq

unfoldable pub in_dq_after : ℕ → Bool → Bool → Bool
in_dq_after c in_sq in_dq = if c == b'"' && not in_sq then not in_dq else in_dq

unfoldable pub is_pipe : ℕ → Bool → Bool → Bool
is_pipe c in_sq in_dq = c == b'|' && not in_sq && not in_dq

-- The loop over the line: the rest of the segment at `p`, and the segments behind it.
unfoldable pub segments_loop : Bytes → Bool → Bool → Bytes × List Bytes
segments_loop [] in_sq in_dq = ([], [])
segments_loop (c ∷ p) in_sq in_dq =
    let (segment, later) =
      segments_loop p (in_sq_after c in_sq in_dq) (in_dq_after c in_sq in_dq) in
    if is_pipe c in_sq in_dq then ([], segment ∷ later) else (c ∷ segment, later)

-- `segments`: there is room for sixteen.
unfoldable pub segments : Bytes → List Bytes
segments line = let (segment, later) = segments_loop line false false in take 16 (segment ∷ later)

pub record Redirects : Type 0 where
  pub words : List Bytes
  pub infile : Option Bytes
  pub outfile : Option Bytes
  pub append : Bool

-- The scan for redirects, with the words and files that stand before the place it has reached.
unfoldable pub scan : List Bytes → Option Bytes → Option Bytes → Bool → Redirects
scan [] infile outfile append = record {
  words = [];
  infile = infile;
  outfile = outfile;
  append = append;
}
scan (a ∷ []) infile outfile append = record {
  words = a ∷ [];
  infile = infile;
  outfile = outfile;
  append = append;
}
scan (a ∷ b ∷ args) infile outfile append =
    let truncated = scan args infile (some b) false in
    let appended = scan args infile (some b) true in
    let opened = scan args (some b) outfile append in
    let r = scan (b ∷ args) infile outfile append in
    let kept : Redirects = record r { words = a ∷ r.words } in
    if str_eq a (codes ">")
    then truncated
    else if str_eq a (codes ">>")
    then appended
    else if str_eq a (codes "<")
    then opened
    else kept

unfoldable pub redirects : List Bytes → Redirects
redirects args = scan args none none false
