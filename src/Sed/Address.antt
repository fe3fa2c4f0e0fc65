-- ===== src/Sed/Address.antt =====
-- tools/sed.c: the addresses that the loop over the lines honours.
use qoot.Base.{
  ℕ, ◌≡◌, refl, ap, ◌∙◌, arith, false, not, inl, inr, ◌∷◌, Bytes, Bool-cases, ◌==◌, if◌then◌else◌,
  drop,
}
use qoot.Base.Int.{ℤ, pos, negsuc}
use qoot.Str.{peek}
use qoot.Sed.{SedCmd, in_range, matches_addr, parse_command, parse_sed_cmd}

parse_command-address :
    (start finish : ℤ) (text : Bytes)
    → ((parse_command start finish text).1.line_start ≡ start)
      × ((parse_command start finish text).1.line_end ≡ finish)
unfolding parse_command
parse_command-address start finish text = elim (Bool-cases (not (peek text == b's'))) [
  | inl other ↦ rw (other, if◌then◌else◌) (refl, refl)
  | inr s ↦ elim (Bool-cases (peek (drop 1 text) == 0)) [
    | inl ended ↦ rw (s, if◌then◌else◌, ended) (refl, refl)
    | inr delimited ↦ rw (s, if◌then◌else◌, delimited) (refl, refl)
  ]
]

-- The address `$` alone, where the caller passes 0 for `is_last`.
in_range_last : (lineno : ℕ) → in_range (negsuc 0) (pos 0) lineno false ≡ false
unfolding in_range
in_range_last lineno = ground arith

matches_addr_last :
    (cmd : SedCmd) (lineno : ℕ)
    → cmd.line_start ≡ negsuc 0
    → cmd.line_end ≡ pos 0
    → matches_addr cmd lineno false ≡ false
unfolding matches_addr
matches_addr_last cmd lineno s e =
    ap (λ z. in_range z cmd.line_end lineno false) s
    ∙ ap (λ z. in_range (negsuc 0) z lineno false) e
    ∙ in_range_last lineno

-- A command whose expression begins with `$` selects no line: the loop passes 0 for `is_last`.
matches_addr-dollar :
    (expr : Bytes) (lineno : ℕ) → matches_addr (parse_sed_cmd (b'$' ∷ expr)).1 lineno false ≡ false
unfolding parse_sed_cmd
matches_addr-dollar expr lineno =
    let (s, e) = parse_command-address (negsuc 0) (pos 0) expr in
    matches_addr_last (parse_sed_cmd (b'$' ∷ expr)).1 lineno s e
