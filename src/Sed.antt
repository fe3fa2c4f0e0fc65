-- ===== src/Sed.antt =====
-- tools/sed.c: commands, addresses, substitution, and the loop over the lines.
pub mod Replace
pub mod Substitute
pub mod Address
use qoot.Base.{
  ℕ, zero, suc, ◌+◌, ◌-◌, ◌^◌, Bool, true, false, not, ◌&&◌, ◌||◌, List, [], ◌∷◌, ◌++◌, Option,
  none, some, Bytes, length, take, drop, ltb, leb, ◌==◌, if◌then◌else◌,
}
use qoot.Base.Int.{ℤ, pos, negsuc, gtb}
use qoot.Str.{is_digit, peek, str_len, str_str}
use qoot.Str.Parse.{str_to_uint}

pub record SedCmd : Type 0 where
  pub line_start : ℤ
  pub line_end : ℤ
  pub kind : ℕ
  pub find : Bytes
  pub replace : Bytes
  pub global : Bool

-- `(int)` of an `unsigned int`.
abbrev signed32 : ℕ → ℤ
signed32 n = if ltb n (2 ^ 31) then pos n else negsuc (2 ^ 32 - n - 1)

-- `while (*p >= '0' && *p <= '9') p++;`
unfoldable pub skip_digits : Bytes → Bytes
unfolding is_digit
skip_digits [] = []
skip_digits (c ∷ p) = let more = skip_digits p in if is_digit c then more else c ∷ p

-- `while (*p && *p != delim && i < 255) …`: the text copied, and where `p` stops.
unfoldable pub text_until : ℕ → ℕ → Bytes → Bytes × Bytes
text_until zero delim p = ([], p)
text_until (suc n) delim [] = ([], [])
text_until (suc n) delim (c ∷ p) =
    let more = text_until n delim p in if c == delim then ([], c ∷ p) else (c ∷ more.0, more.1)

-- `if (*p == delim) p++;`
abbrev skip_byte : ℕ → Bytes → Bytes
skip_byte delim [] = []
skip_byte delim (c ∷ p) = if c == delim then p else c ∷ p

-- The address: `line_start`, `line_end`, and the command behind it.
unfoldable pub parse_address : Bytes → ℤ × ℤ × Bytes
unfolding skip_digits
parse_address [] = (pos 0, pos 0, [])
parse_address (c ∷ p) =
    let start = signed32 (str_to_uint (c ∷ p)) in
    let behind = skip_digits p in
    let second = drop 1 behind in
    if is_digit c
    then (if peek behind == b','
        then (if peek second == b'$'
            then (start, negsuc 0, drop 1 second)
            else (start, signed32 (str_to_uint second), skip_digits second))
        else (start, pos 0, behind))
    else if c == b'$'
    then (negsuc 0, pos 0, p)
    else (pos 0, pos 0, c ∷ p)

-- The command from its letter on: whether the result is 0, not -1, and what `cmd` holds.
unfoldable pub parse_command : ℤ → ℤ → Bytes → Bool × SedCmd
unfolding text_until
parse_command line_start line_end text =
    let kind = peek text in
    let p = drop 1 text in
    let delim = peek p in
    let find = text_until 255 delim (drop 1 p) in
    let replace = text_until 255 delim (skip_byte delim find.1) in
    let without_texts : SedCmd = record {
      line_start = line_start;
      line_end = line_end;
      kind = kind;
      find = [];
      replace = [];
      global = false;
    } in
    if not (kind == b's')
    then (true, without_texts)
    else if delim == 0
    then (false, without_texts)
    else (
      true,
      record {
        line_start = line_start;
        line_end = line_end;
        kind = kind;
        find = find.0;
        replace = replace.0;
        global = peek (skip_byte delim replace.1) == b'g';
      },
    )

unfoldable pub parse_sed_cmd : Bytes → Bool × SedCmd
unfolding parse_address parse_command
parse_sed_cmd expr =
    let (start, finish, text) = parse_address expr in parse_command start finish text

-- An end of the range, with `other` for -1 where the line is not known to be the last.
abbrev pub bound : ℤ → ℕ → Bool → ℤ → ℤ
bound (negsuc zero) lineno is_last other = if is_last then pos lineno else other
bound n lineno is_last other = n

unfoldable pub in_range : ℤ → ℤ → ℕ → Bool → Bool
in_range (pos zero) line_end lineno is_last = true
in_range line_start (pos zero) lineno is_last =
    let start = bound line_start lineno is_last (negsuc 998) in
    not (gtb start (pos lineno)) && not (gtb (pos lineno) start)
in_range line_start line_end lineno is_last =
    let start = bound line_start lineno is_last (negsuc 998) in
    let finish = bound line_end lineno is_last (pos 999999) in
    not (gtb start (pos lineno)) && not (gtb (pos lineno) finish)

unfoldable pub matches_addr : SedCmd → ℕ → Bool → Bool
unfolding in_range
matches_addr cmd lineno is_last = in_range cmd.line_start cmd.line_end lineno is_last

-- `while (… && rpos < LINE_MAX - 1) result[rpos++] = …`
abbrev pub put : Bytes → Bytes → Bytes
put result s = result ++ take (4095 - length result) s

-- The `while (*p)` of `sed_substitute`, on fuel: every round advances `p`.
unfoldable pub substitute_loop : ℕ → Bytes → Bytes → Bool → Bool → Bytes → Bytes → Bytes
substitute_loop zero find replace global did p result = result
substitute_loop (suc f) find replace global did [] result = result
substitute_loop (suc f) find replace global did (c ∷ p) result =
    let copied = substitute_loop f find replace global did p (put result (c ∷ [])) in
    elim (str_str (c ∷ p) find) as (λ _. Bytes) [
      | none ↦ copied
      | some r ↦
          let before = take (length (c ∷ p) - length r) (c ∷ p) in
          let replaced =
            substitute_loop f find replace global true (drop (str_len find) r)
              (put (put result before) replace) in
          if not did || global then replaced else copied
    ]

-- What `sed_substitute` prints.
unfoldable pub sed_substitute : Bytes → Bytes → Bytes → Bool → Bytes
unfolding substitute_loop
sed_substitute line find replace global =
    if str_len find == 0
    then line ++ 10 ∷ []
    else substitute_loop (length line) find replace global false line [] ++ 10 ∷ []

-- How the commands leave a line: what they printed, `deleted`, `printed`, and whether `q` was met.
pub record Outcome : Type 0 where
  pub text : Bytes
  pub deleted : Bool
  pub printed : Bool
  pub quit : Bool

-- The `for` over the commands of a line.
unfoldable pub run_cmds : Bool → Bytes → ℕ → List SedCmd → Bytes → Bool → Outcome
unfolding matches_addr sed_substitute
run_cmds suppress line lineno [] text printed = record {
  text = text;
  deleted = false;
  printed = printed;
  quit = false;
}
run_cmds suppress line lineno (cmd ∷ cmds) text printed =
    let whole = line ++ 10 ∷ [] in
    let unmatched = run_cmds suppress line lineno cmds text printed in
    let after_p = run_cmds suppress line lineno cmds (text ++ whole) true in
    let after_s =
      run_cmds suppress line lineno cmds
        (text ++ sed_substitute line cmd.find cmd.replace cmd.global) true in
    if not (matches_addr cmd lineno false)
    then unmatched
    else if cmd.kind == b'd'
    then record { text = text; deleted = true; printed = printed; quit = false }
    else if cmd.kind == b'p'
    then after_p
    else if cmd.kind == b'q'
    then record {
      text = if suppress then text else text ++ whole;
      deleted = false;
      printed = printed;
      quit = true;
    }
    else if cmd.kind == b's'
    then after_s
    else unmatched

-- The loop over the lines that `read_line` hands over; `lineno` counts the lines before them.
unfoldable pub sed_lines : Bool → List SedCmd → ℕ → List Bytes → Bytes
unfolding run_cmds
sed_lines suppress cmds lineno [] = []
sed_lines suppress cmds lineno (line ∷ lines) =
    let o = run_cmds suppress line (lineno + 1) cmds [] false in
    let later = sed_lines suppress cmds (lineno + 1) lines in
    let kept = if o.deleted || suppress || o.printed then o.text else o.text ++ line ++ 10 ∷ [] in
    if o.quit then o.text else kept ++ later
