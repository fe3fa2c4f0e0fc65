-- ===== src/Diff/Patch.antt =====
-- tools/diff.c: what the hunks mean.
use qoot.Base.{
  ℕ, zero, suc, ◌+◌, ◌-◌, ◌<◌, ◌≡◌, refl, ap, subst, sym, ◌∙◌, inl, inr, List, [], ◌∷◌, ◌++◌,
  append_assoc, append-nil, Bytes, length, take, drop, All, arith, Bool-cases, length-append,
  take-append-drop, take-length-append, drop-length-append, length-take, length-drop,
}
use qoot.Diff.{
  Hunk, removed, added, changed, simple_diff, diff_loop, remaining, Sync, in_a, in_b, unsynced,
  look_ahead,
}
use qoot.Diff.Ahead.{Found, look_ahead-Found}
use qoot.Str.{IsCString, str_eq}
use qoot.Str.Laws.{str_eq_iff}

-- An edit: the lines behind line `before` and up to line `after` are replaced.
pub record Edit : Type 0 where
  pub before : ℕ
  pub after : ℕ
  pub lines : List Bytes

-- What a hunk says about the first file, and about the second.
abbrev pub forward : Hunk → Edit
forward (removed first last behind lines) = record { before = first - 1; after = last; lines = [] }
forward (added behind first last lines) = record { before = behind; after = behind; lines = lines }
forward (changed line_a line_b x y) = record { before = line_a - 1; after = line_a; lines = y ∷ [] }

abbrev pub backward : Hunk → Edit
backward (removed first last behind lines) = record {
  before = behind;
  after = behind;
  lines = lines;
}
backward (added behind first last lines) = record { before = first - 1; after = last; lines = [] }
backward (changed line_a line_b x y) = record {
  before = line_b - 1;
  after = line_b;
  lines = x ∷ [];
}

-- The edits applied in turn to the lines of a file from line `done` on.
unfoldable pub patch : (Hunk → Edit) → ℕ → List Hunk → List Bytes → List Bytes
patch side done [] file = file
patch side done (h ∷ hunks) file =
    let e = side h in
    take (e.before - done) file
    ++ (e.lines ++ patch side e.after hunks (drop (e.after - done) file))

-- An edit that replaces `old`, behind lines that are kept.
pub patch_edit :
    (side : Hunk → Edit) (h : Hunk) (hunks : List Hunk) (done : ℕ) (kept old rest : List Bytes)
    → (side h).before ≡ done + length kept
    → (side h).after ≡ done + length kept + length old
    → patch side done (h ∷ hunks) (kept ++ (old ++ rest))
      ≡ kept ++ ((side h).lines ++ patch side (side h).after hunks rest)
unfolding patch
patch_edit side h hunks done kept old rest eb ea =
    let nb : (side h).before - done ≡ length kept = omega arith in
    let na : (side h).after - done ≡ length (kept ++ old) = omega (arith, length-append kept old) in
    rw (nb, na, take-length-append kept (old ++ rest))
      (ap (λ (t : List Bytes). kept ++ ((side h).lines ++ patch side (side h).after hunks t))
        (ap (drop (length (kept ++ old))) (sym (append_assoc kept old rest))
          ∙ drop-length-append (kept ++ old) rest))

-- With no hunk the file stays as it is; the edits apply behind lines that are kept.
abbrev Gives : (Hunk → Edit) → ℕ → List Hunk → List Bytes → List Bytes → Type 0
Gives side at hunks from to =
    (done : ℕ) (kept : List Bytes)
    → at ≡ done + length kept
    → patch side done hunks (kept ++ from) ≡ kept ++ to

Gives-step :
    (side : Hunk → Edit) (h : Hunk) (hunks : List Hunk) (at next : ℕ) (old rest to : List Bytes)
    → (side h).before ≡ at
    → (side h).after ≡ next
    → next ≡ at + length old
    → Gives side next hunks rest to
    → Gives side at (h ∷ hunks) (old ++ rest) ((side h).lines ++ to)
Gives-step side h hunks at next old rest to eb ea en later done kept e =
    patch_edit side h hunks done kept old rest (omega arith) (omega arith)
    ∙ rw ea (ap (λ (t : List Bytes). kept ++ ((side h).lines ++ t)) (later next [] (omega arith)))

Gives-kept :
    (side : Hunk → Edit) (hunks : List Hunk) (at : ℕ) (x : Bytes) (from to : List Bytes)
    → Gives side (suc at) hunks from to
    → Gives side at hunks (x ∷ from) (x ∷ to)
Gives-kept side hunks at x from to later done kept e =
    sym (ap (patch side done hunks) (append_assoc kept (x ∷ []) from))
    ∙ later done (kept ++ x ∷ []) (omega (arith, length-append kept (x ∷ [])))
    ∙ append_assoc kept (x ∷ []) to

Gives-nil : (side : Hunk → Edit) (at : ℕ) (rest : List Bytes) → Gives side at [] rest rest
unfolding patch
Gives-nil side at rest done kept e = refl

-- Both directions.
abbrev Leads : ℕ → ℕ → List Hunk → List Bytes → List Bytes → Type 0
Leads ia ib hunks a b = Gives forward ia hunks a b × Gives backward ib hunks b a

module _ (ia ib n : ℕ) (lines a b : List Bytes) (hunks : List Hunk) (count : length lines ≡ n) where
  removed-Leads :
      Leads (ia + n) ib hunks a b
      → Leads ia ib (removed (ia + 1) (ia + n) ib lines ∷ hunks) (lines ++ a) b
  removed-Leads (forth, back) = (
    Gives-step forward (removed (ia + 1) (ia + n) ib lines) hunks ia (ia + n) lines a b
        (omega arith) refl (omega arith) forth,
    Gives-step backward (removed (ia + 1) (ia + n) ib lines) hunks ib ib [] b a refl refl
        (omega arith) back,
  )

  added-Leads :
      Leads ia (ib + n) hunks a b
      → Leads ia ib (added ia (ib + 1) (ib + n) lines ∷ hunks) a (lines ++ b)
  added-Leads (forth, back) = (
    Gives-step forward (added ia (ib + 1) (ib + n) lines) hunks ia ia [] a b refl refl (omega arith)
        forth,
    Gives-step backward (added ia (ib + 1) (ib + n) lines) hunks ib (ib + n) lines b a (omega arith)
        refl (omega arith) back,
  )

changed-Leads :
    (ia ib : ℕ) (x y : Bytes) (a b : List Bytes) (hunks : List Hunk)
    → Leads (suc ia) (suc ib) hunks a b
    → Leads ia ib (changed (ia + 1) (ib + 1) x y ∷ hunks) (x ∷ a) (y ∷ b)
changed-Leads ia ib x y a b hunks (forth, back) = (
  Gives-step forward (changed (ia + 1) (ib + 1) x y) hunks ia (suc ia) (x ∷ []) a b (omega arith)
      (omega arith) (omega arith) forth,
  Gives-step backward (changed (ia + 1) (ib + 1) x y) hunks ib (suc ib) (y ∷ []) b a (omega arith)
      (omega arith) (omega arith) back,
)

Leads-kept :
    (ia ib : ℕ) (x y : Bytes) (a b : List Bytes) (hunks : List Hunk)
    → x ≡ y
    → Leads (suc ia) (suc ib) hunks a b
    → Leads ia ib hunks (x ∷ a) (y ∷ b)
Leads-kept ia ib x y a b hunks e (forth, back) =
    subst (λ t. Leads ia ib hunks (x ∷ a) (t ∷ b)) e
      (Gives-kept forward hunks ia x a b forth, Gives-kept backward hunks ib x b a back)

Leads-nil : (ia ib : ℕ) (rest : List Bytes) → Leads ia ib [] rest rest
Leads-nil ia ib rest = (Gives-nil forward ia rest, Gives-nil backward ib rest)

remaining_a : (ia ib : ℕ) (a : List Bytes) → Leads ia ib (remaining ia ib a []) a []
unfolding remaining
remaining_a ia ib [] = Leads-nil ia ib []
remaining_a ia ib (x ∷ a) =
    subst (λ t. Leads ia ib (removed (ia + 1) (ia + length (x ∷ a)) ib (x ∷ a) ∷ []) t [])
      (append-nil (x ∷ a))
      (removed-Leads ia ib (length (x ∷ a)) (x ∷ a) [] [] [] refl
        (Leads-nil (ia + length (x ∷ a)) ib []))

remaining_b : (ia ib : ℕ) (b : List Bytes) → Leads ia ib (remaining ia ib [] b) [] b
unfolding remaining
remaining_b ia ib [] = Leads-nil ia ib []
remaining_b ia ib (y ∷ b) =
    subst (λ t. Leads ia ib (added ia (ib + 1) (ib + length (y ∷ b)) (y ∷ b) ∷ []) [] t)
      (append-nil (y ∷ b))
      (added-Leads ia ib (length (y ∷ b)) (y ∷ b) [] [] [] refl
        (Leads-nil ia (ib + length (y ∷ b)) []))

All-drop : (n : ℕ) (l : List Bytes) → All IsCString l → All IsCString (drop n l)
All-drop zero l h = h
All-drop (suc n) [] h = tt
All-drop (suc n) (x ∷ l) h = All-drop n l h.1

-- What a round prints when the lines differ, with `n` lines of one file passed over.
abbrev round : ℕ → ℕ → ℕ → Bytes → List Bytes → Bytes → List Bytes → Sync → List Hunk
round f ia ib x a y b (in_a look) =
    removed (ia + 1) (ia + look) ib (take look (x ∷ a))
    ∷ diff_loop f (ia + look) ib (drop look (x ∷ a)) (y ∷ b)
round f ia ib x a y b (in_b look) =
    added ia (ib + 1) (ib + look) (take look (y ∷ b))
    ∷ diff_loop f ia (ib + look) (x ∷ a) (drop look (y ∷ b))
round f ia ib x a y b unsynced = changed (ia + 1) (ib + 1) x y ∷ diff_loop f (suc ia) (suc ib) a b

abbrev Correct : ℕ → Type 0
Correct f =
    (ia ib : ℕ) (a b : List Bytes)
    → All IsCString a
    → All IsCString b
    → length a + length b < f
    → Leads ia ib (diff_loop f ia ib a b) a b

round_lem :
    (f ia ib : ℕ) (x : Bytes) (a : List Bytes) (y : Bytes) (b : List Bytes) (s : Sync)
    → Correct f
    → All IsCString (x ∷ a)
    → All IsCString (y ∷ b)
    → length a + length b + 1 < f
    → Found 1 a b s
    → Leads ia ib (round f ia ib x a y b s) (x ∷ a) (y ∷ b)
round_lem f ia ib x a y b (in_a look) ih ca cb fuel found =
    let past = take look (x ∷ a) in
    let rest = drop look (x ∷ a) in
    let count : length past ≡ look = omega (arith, length-take look (x ∷ a)) in
    let later =
      ih (ia + look) ib rest (y ∷ b) (All-drop look (x ∷ a) ca) cb
        (omega (arith, length-drop look (x ∷ a))) in
    subst (λ t. Leads ia ib (round f ia ib x a y b (in_a look)) t (y ∷ b))
      (take-append-drop look (x ∷ a))
      (removed-Leads ia ib look past rest (y ∷ b) (diff_loop f (ia + look) ib rest (y ∷ b)) count
        later)
round_lem f ia ib x a y b (in_b look) ih ca cb fuel found =
    let past = take look (y ∷ b) in
    let rest = drop look (y ∷ b) in
    let count : length past ≡ look = omega (arith, length-take look (y ∷ b)) in
    let later =
      ih ia (ib + look) (x ∷ a) rest ca (All-drop look (y ∷ b) cb)
        (omega (arith, length-drop look (y ∷ b))) in
    subst (λ t. Leads ia ib (round f ia ib x a y b (in_b look)) (x ∷ a) t)
      (take-append-drop look (y ∷ b))
      (added-Leads ia ib look past (x ∷ a) rest (diff_loop f ia (ib + look) (x ∷ a) rest) count
        later)
round_lem f ia ib x a y b unsynced ih ca cb fuel found =
    changed-Leads ia ib x y a b (diff_loop f (suc ia) (suc ib) a b)
      (ih (suc ia) (suc ib) a b ca.1 cb.1 (omega arith))

diff_loop_lem : (f : ℕ) → Correct f
unfolding diff_loop
diff_loop_lem zero ia ib a b ca cb fuel = elim fuel [ ]
diff_loop_lem (suc f) ia ib [] b ca cb fuel = remaining_b ia ib b
diff_loop_lem (suc f) ia ib (x ∷ a) [] ca cb fuel = remaining_a ia ib (x ∷ a)
diff_loop_lem (suc f) ia ib (x ∷ a) (y ∷ b) ca cb fuel = elim (Bool-cases (str_eq x y)) [
  | inl e ↦
      let eq : x ≡ y = (str_eq_iff x y ca.0 cb.0).0 e in
      rw e (
        Leads-kept ia ib x y a b (diff_loop f (suc ia) (suc ib) a b) eq
          (diff_loop_lem f (suc ia) (suc ib) a b ca.1 cb.1 (omega arith)))
  | inr e ↦ rw e (
      round_lem f ia ib x a y b (look_ahead x y 99 1 a b) (diff_loop_lem f) ca cb (omega arith)
        (look_ahead-Found x y 99 1 a b))
]

-- Applied to the lines of the first file, the hunks that are printed give those of the second; and
-- applied to those of the second in the other direction they give those of the first. The lines are
-- strings.
pub patch-simple_diff :
    (a b : List Bytes)
    → All IsCString a
    → All IsCString b
    → (patch forward 0 (simple_diff a b) a ≡ b) × (patch backward 0 (simple_diff a b) b ≡ a)
unfolding simple_diff
patch-simple_diff a b ca cb =
    let (forth, back) = diff_loop_lem (length a + length b + 1) 0 0 a b ca cb (omega arith) in
    (forth 0 [] (omega arith), back 0 [] (omega arith))
