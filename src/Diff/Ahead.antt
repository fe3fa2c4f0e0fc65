-- ===== src/Diff/Ahead.antt =====
-- tools/diff.c: what the look-ahead may find.
use qoot.Base.{
  ℕ, zero, suc, ◌+◌, ◌<◌, ◌≤◌, ◌≡◌, inl, inr, true, List, [], ◌∷◌, Bytes, length, drop, arith,
  Bool-cases,
}
use qoot.Diff.{Sync, in_a, in_b, unsynced, next_is, look_ahead}

-- A number of lines to be passed over is at least `look`, and a line follows them.
abbrev pub Found : ℕ → List Bytes → List Bytes → Sync → Type 0
Found look a b (in_a n) = (look ≤ n) × (n < look + length a)
Found look a b (in_b n) = (look ≤ n) × (n < look + length b)
Found look a b unsynced = Unit {0}

Found-later :
    (look : ℕ) (a b : List Bytes) (s : Sync)
    → Found (suc look) (drop 1 a) (drop 1 b) s
    → Found look a b s
Found-later look [] b (in_a n) h = absurd (omega arith)
Found-later look (x ∷ a) b (in_a n) h = omega arith
Found-later look a [] (in_b n) h = absurd (omega arith)
Found-later look a (y ∷ b) (in_b n) h = omega arith
Found-later look a b unsynced h = tt

next_is-length : (l : List Bytes) (line : Bytes) → next_is l line ≡ true → 0 < length l
unfolding next_is
next_is-length [] line h = absurd cc
next_is-length (x ∷ l) line h = omega arith

pub look_ahead-Found :
    (x y : Bytes) (rounds look : ℕ) (a b : List Bytes)
    → Found look a b (look_ahead x y rounds look a b)
unfolding look_ahead
look_ahead-Found x y zero look a b = tt
look_ahead-Found x y (suc rounds) look a b = elim (Bool-cases (next_is a y)) [
  | inl e ↦ rw e (let short = next_is-length a y e in (omega arith, omega arith))
  | inr e ↦ rw e (elim (Bool-cases (next_is b x)) [
    | inl e' ↦ rw e' (let short = next_is-length b x e' in (omega arith, omega arith))
    | inr e' ↦ rw e' (
        Found-later look a b (look_ahead x y rounds (suc look) (drop 1 a) (drop 1 b))
          (look_ahead-Found x y rounds (suc look) (drop 1 a) (drop 1 b)))
  ])
]
