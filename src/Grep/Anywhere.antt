-- ===== src/Grep/Anywhere.antt =====
-- tools/grep.c: `match_pattern` looks at every position of the line, or at the first one under `^`.
use mathlib.Core.Path.{subst}
use qoot.Base.{
  ◌≡◌, ◌↔◌, refl, ap, [], ◌∷◌, ◌++◌, true, Bytes, arith, inl, inr, ◌==◌, Bool-cases, if◌then◌else◌,
}
use qoot.Grep.{match_here, try_from, match_pattern}
use qoot.Grep.Pattern.{Found, items, anchored, IsLine}
use qoot.Grep.Match.{Answers, match_here_iff}

abbrev pub Here : Bytes → Bytes → Type 0
Here pat = Found (anchored pat) (items pat)

abbrev pub Somewhere : Bytes → Bytes → Type 0
Somewhere pat text = (u v : Bytes) × (text ≡ u ++ v) × Here pat v

-- A pattern that begins with `^` is looked for at the start of the line, any other at every place.
abbrev pub Occurs : Bytes → Bytes → Type 0
Occurs [] text = Somewhere [] text
Occurs (p ∷ pat) text = if p == b'^' then Here pat text else Somewhere (p ∷ pat) text

try_from-Somewhere : (pat t : Bytes) → IsLine t → try_from pat t ≡ true → Somewhere pat t
unfolding try_from
try_from-Somewhere pat [] l h = ([], [], refl, (match_here_iff pat [] l).0 h)
try_from-Somewhere pat (c ∷ t) l h = elim (Bool-cases (match_here pat (c ∷ t))) [
  | inl now ↦ ([], c ∷ t, refl, (match_here_iff pat (c ∷ t) l).0 now)
  | inr later ↦
      let (u, v, e, f) = try_from-Somewhere pat t l.1 (ground arith) in (c ∷ u, v, ap (◌∷◌ c) e, f)
]

Somewhere-try_from : (pat u v : Bytes) → IsLine (u ++ v) → Here pat v → try_from pat (u ++ v) ≡ true
unfolding try_from
Somewhere-try_from pat [] [] l f = (match_here_iff pat [] l).1 f
Somewhere-try_from pat [] (c ∷ v) l f = rw ((match_here_iff pat (c ∷ v) l).1 f, try_from)
Somewhere-try_from pat (c ∷ u) v l f = ground (arith, l.0, Somewhere-try_from pat u v l.1 f)

try_from_iff : (pat : Bytes) → Answers (try_from pat) (Somewhere pat)
try_from_iff pat t l = (
  try_from-Somewhere pat t l,
  λ (u, v, e, f).
      let l' : IsLine (u ++ v) = subst IsLine e l in rw e (Somewhere-try_from pat u v l' f),
)

-- On a line, `match_pattern` holds exactly if the pattern occurs in it.
pub match_pattern_iff :
    (pat text : Bytes) → IsLine text → (match_pattern pat text ≡ true) ↔ Occurs pat text
unfolding match_pattern
match_pattern_iff [] text l = try_from_iff [] text l
match_pattern_iff (p ∷ pat) text l = elim (Bool-cases (p == b'^')) [
  | inl caret ↦ rw caret (match_here_iff pat text l)
  | inr other ↦ rw other (try_from_iff (p ∷ pat) text l)
]
