-- ===== src/Grep/Pattern.antt =====
-- What a pattern means, with no search order in it: a list of items and an end anchor.
use qoot.Base.{ℕ, ◌≡◌, ◌≢◌, List, [], ◌∷◌, ◌++◌, Bool, true, false, Bytes, All, ◌==◌, if◌then◌else◌}

-- A class of bytes: any byte, or one.
pub data Atom : Type 0 where
  any : Atom
  char : ℕ → Atom

abbrev pub Accepts : Atom → ℕ → Type 0
Accepts any c = Unit
Accepts (char x) c = x ≡ c

pub data Item : Type 0 where
  one : Atom → Item
  star : Atom → Item
  plus : Atom → Item

-- What an anchor asks of the rest of the line.
abbrev pub End : Bool → Bytes → Type 0
End false rest = Unit
End true rest = rest ≡ []

-- `text` begins with what the items describe; `anchored` asks that nothing follows it.
abbrev pub Found : Bool → List Item → Bytes → Type 0
Found anchored [] text = End anchored text
Found anchored (one a ∷ p) text =
    (c : ℕ) × (v : Bytes) × (text ≡ c ∷ v) × Accepts a c × Found anchored p v
Found anchored (star a ∷ p) text =
    (u v : Bytes) × (text ≡ u ++ v) × All (Accepts a) u × Found anchored p v
Found anchored (plus a ∷ p) text =
    (u v : Bytes) × (u ≢ []) × (text ≡ u ++ v) × All (Accepts a) u × Found anchored p v

abbrev pub atom : ℕ → Atom
atom p = if p == b'.' then any else char p

-- The items of a pattern's text behind the `^`: `c*`, `c+`, `.`, `\c`, `c`.
abbrev pub items : Bytes → List Item
items [] = []
items (p ∷ []) = if p == b'$' then [] else one (atom p) ∷ []
items (p ∷ q ∷ pat) =
    let star_item = star (atom p) ∷ items pat in
    let plus_item = plus (atom p) ∷ items pat in
    let dot = one any ∷ items (q ∷ pat) in
    let escaped = one (char q) ∷ items pat in
    let plain = one (char p) ∷ items (q ∷ pat) in
    if q == b'*'
    then star_item
    else if q == b'+'
    then plus_item
    else if p == b'.'
    then dot
    else if p == b'\\'
    then escaped
    else plain

-- Whether the pattern ends in an anchor: a last `$` that no item takes.
abbrev pub anchored : Bytes → Bool
anchored [] = false
anchored (p ∷ []) = p == b'$'
anchored (p ∷ q ∷ pat) =
    let pair = anchored pat in
    let single = anchored (q ∷ pat) in
    if q == b'*'
    then pair
    else if q == b'+'
    then pair
    else if p == b'.'
    then single
    else if p == b'\\'
    then pair
    else single

-- A line, as the reader passes it on: no terminator and no newline inside.
abbrev pub IsLine : Bytes → Type 0
IsLine = All (λ c. (c ≢ 0) × (c ≢ 10))
