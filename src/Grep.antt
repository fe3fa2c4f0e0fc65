-- ===== src/Grep.antt =====
-- tools/grep.c: the pattern matcher. A pattern and a line are C strings; `pat + 1` and `text + 1`
-- are suffixes, and the byte read at the end of a string is its terminator.
pub mod Pattern
pub mod Match
pub mod Anywhere
use qoot.Base.{
  ℕ, [], ◌∷◌, Bool, true, false, not, ◌&&◌, ◌||◌, Bytes, take, map, ◌==◌, if◌then◌else◌,
}
use qoot.Str.{peek, to_lower}

-- `return match_here(pat, text + 1)` behind a test of `*text`.
accept : (ℕ → Bool) → (Bytes → Bool) → Bytes → Bool
accept test rest [] = false
accept test rest (c ∷ text) = if test c then rest text else false

-- `*text != '\n' && (c == '.' || *text == c)`
star_test : ℕ → ℕ → Bool
star_test c x = not (x == 10) && (c == b'.' || x == c)

-- The `do … while` of `match_star`; `here` is `match_here(pat, ·)`.
match_star : (Bytes → Bool) → ℕ → Bytes → Bool
match_star here c [] = here []
match_star here c (x ∷ text) =
    let more = match_star here c text in
    if here (x ∷ text) then true else if star_test c x then more else false

-- The `while` of `match_plus`.
match_plus : (Bytes → Bool) → ℕ → Bytes → Bool
match_plus here c [] = false
match_plus here c (x ∷ text) =
    let more = match_plus here c text in
    if star_test c x then (if here text then true else more) else false

unfoldable pub match_here : Bytes → Bytes → Bool
unfolding match_star match_plus star_test accept
match_here [] text = true
match_here (p ∷ []) text =
    if p == b'$'
    then peek text == 0 || peek text == 10
    else if p == b'.'
    then accept (λ c. not (c == 10)) (λ t. true) text
    else accept (λ c. p == c) (λ t. true) text
match_here (p ∷ q ∷ pat) text =
    let star = match_star (match_here pat) p text in
    let plus = match_plus (match_here pat) p text in
    let dot = accept (λ c. not (c == 10)) (match_here (q ∷ pat)) text in
    let escaped = accept (λ c. q == c) (match_here pat) text in
    let plain = accept (λ c. p == c) (match_here (q ∷ pat)) text in
    if q == b'*'
    then star
    else if q == b'+'
    then plus
    else if p == b'.'
    then dot
    else if p == b'\\'
    then escaped
    else plain

-- The `do … while` of `match_pattern`.
try_from : Bytes → Bytes → Bool
try_from pattern [] = match_here pattern []
try_from pattern (c ∷ text) =
    let later = try_from pattern text in
    if match_here pattern (c ∷ text) then true else if c == 10 then false else later

unfoldable pub match_pattern : Bytes → Bytes → Bool
unfolding try_from match_here
match_pattern [] text = try_from [] text
match_pattern (p ∷ pattern) text =
    if p == b'^' then match_here pattern text else try_from (p ∷ pattern) text

-- Both arrays hold at most 4095 bytes.
unfoldable pub match_pattern_icase : Bytes → Bytes → Bool
unfolding match_pattern to_lower
match_pattern_icase pattern text =
    match_pattern (map to_lower (take 4095 pattern)) (map to_lower (take 4095 text))
