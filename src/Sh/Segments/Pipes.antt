-- ===== src/Sh/Segments/Pipes.antt =====
-- tools/sh.c: the segments of a line are what stands between its pipes.
use qoot.Base.{
  ◌≡◌, refl, ap, ◌∙◌, Bool, true, false, ◌&&◌, not, List, [], ◌∷◌, ◌++◌, Bytes, take, All,
}
use qoot.Sh.Segments.{in_sq_after, in_dq_after, is_pipe, segments_loop, segments}

-- The segments with a pipe between them.
abbrev pub piped : Bytes → List Bytes → Bytes
piped segment [] = segment
piped segment (next ∷ later) = segment ++ b'|' ∷ piped next later

-- Whether a text has no pipe outside quotes and closes its quotes, where the flags say how it
-- begins.
unfoldable pub is_segment : Bytes → Bool → Bool → Bool
is_segment [] in_sq in_dq = not in_sq && not in_dq
is_segment (c ∷ text) in_sq in_dq =
    not (is_pipe c in_sq in_dq)
    && is_segment text (in_sq_after c in_sq in_dq) (in_dq_after c in_sq in_dq)

abbrev pub IsSegment : Bytes → Type 0
IsSegment text = is_segment text false false ≡ true

both_hold : (p q : Bool) → not p && q ≡ true → (p ≡ false) × (q ≡ true)
both_hold true q h = cc
both_hold false q h = (refl, h)

segments_loop_pipe :
    (rest : Bytes)
    → segments_loop (b'|' ∷ rest) false false
      ≡ ([], (segments_loop rest false false).0 ∷ (segments_loop rest false false).1)
unfolding segments_loop is_pipe in_sq_after in_dq_after
segments_loop_pipe rest = refl

segments_loop_first :
    (text rest : Bytes) (in_sq in_dq : Bool)
    → is_segment text in_sq in_dq ≡ true
    → segments_loop (text ++ b'|' ∷ rest) in_sq in_dq
      ≡ (text, (segments_loop rest false false).0 ∷ (segments_loop rest false false).1)
unfolding is_segment segments_loop
segments_loop_first [] rest true in_dq h = cc
segments_loop_first [] rest false true h = cc
segments_loop_first [] rest false false h = segments_loop_pipe rest
segments_loop_first (c ∷ text) rest in_sq in_dq h =
    let (plain, more) = both_hold (is_pipe c in_sq in_dq) _ h in
    rw plain (
      rw
        (segments_loop_first text rest (in_sq_after c in_sq in_dq) (in_dq_after c in_sq in_dq) more)
        refl)

segments_loop_only :
    (text : Bytes) (in_sq in_dq : Bool)
    → is_segment text in_sq in_dq ≡ true
    → segments_loop text in_sq in_dq ≡ (text, [])
unfolding is_segment segments_loop
segments_loop_only [] in_sq in_dq h = refl
segments_loop_only (c ∷ text) in_sq in_dq h =
    let (plain, more) = both_hold (is_pipe c in_sq in_dq) _ h in
    rw plain (
      rw (segments_loop_only text (in_sq_after c in_sq in_dq) (in_dq_after c in_sq in_dq) more)
        refl)

segments_loop-piped :
    (segment : Bytes) (later : List Bytes)
    → All IsSegment (segment ∷ later)
    → segments_loop (piped segment later) false false ≡ (segment, later)
segments_loop-piped segment [] h = segments_loop_only segment false false h.0
segments_loop-piped segment (next ∷ later) h =
    segments_loop_first segment (piped next later) false false h.0
    ∙ ap (λ (r : Bytes × List Bytes). (segment, r.0 ∷ r.1)) (segments_loop-piped next later h.1)

-- Texts that close their quotes and have no pipe outside of them, put together with pipes, are
-- the segments of the line, up to the sixteenth; what stands behind it is dropped.
pub segments-piped :
    (segment : Bytes) (later : List Bytes)
    → All IsSegment (segment ∷ later)
    → segments (piped segment later) ≡ take 16 (segment ∷ later)
unfolding segments
segments-piped segment later h =
    ap (λ (r : Bytes × List Bytes). take 16 (r.0 ∷ r.1)) (segments_loop-piped segment later h)
