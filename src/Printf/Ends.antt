-- ===== src/Printf/Ends.antt =====
-- tools/printf.c: arguments that are used again, and a format that ends too early.
use qoot.Base.{
  get_or, ◌+◌, true, ℕ, zero, suc, ◌-◌, ◌≤◌, ◌≡◌, ◌≢◌, refl, ap, sym, ◌∙◌, ◌⊎◌, inl, inr, false,
  List, [], ◌∷◌, ◌++◌, append-nil, append_assoc, Option, none, some, Bytes, codes, length,
  length-append, All, arith, ltb, ne→==,
}
use qoot.Printf.{put_before, format_loop, printf_main, next_arg}

-- Bytes that stand for themselves in a format.
abbrev pub IsPlain : Bytes → Type 0
IsPlain = All (λ c. (c ≢ b'%') × (c ≢ b'\\'))

put_before-nil : (o : Option Bytes) → put_before [] o ≡ o
put_before-nil none = refl
put_before-nil (some rest) = refl

put_before-put_before :
    (a b : Bytes) (o : Option Bytes) → put_before a (put_before b o) ≡ put_before (a ++ b) o
put_before-put_before a b none = refl
put_before-put_before a b (some rest) = ap some (sym (append_assoc a b rest))

module _ (argv : List Bytes) where
  pub plain_prefix :
      (t p : Bytes) (f argi : ℕ)
      → IsPlain t
      → length t ≤ f
      → format_loop argv f (t ++ p) argi ≡ put_before t (format_loop argv (f - length t) p argi)
  unfolding format_loop
  plain_prefix [] p f argi plain enough =
      let same : f ≡ f - 0 = omega arith in
      ap (λ g. format_loop argv g p argi) same
      ∙ sym (put_before-nil (format_loop argv (f - 0) p argi))
  plain_prefix (c ∷ t) p zero argi plain enough = absurd (omega arith)
  plain_prefix (c ∷ t) p (suc f) argi plain enough =
      let fewer : f - length t ≡ suc f - length (c ∷ t) = omega arith in
      rw (ne→== c b'%' plain.0.0, ne→== c b'\\' plain.0.1)
        (ap (put_before (c ∷ [])) (plain_prefix t p f argi plain.1 (omega arith))
          ∙ put_before-put_before (c ∷ []) t (format_loop argv (f - length t) p argi)
          ∙ ap (λ g. put_before (c ∷ t) (format_loop argv g p argi)) fewer)

  pub plain_whole :
      (u : Bytes) (f argi : ℕ) → IsPlain u → length u ≤ f → format_loop argv f u argi ≡ some u
  unfolding format_loop
  plain_whole u f argi plain enough =
      ap (λ (t : Bytes). format_loop argv f t argi) (sym (append-nil u))
      ∙ plain_prefix u [] f argi plain enough
      ∙ ap some (append-nil u)

no_pad : (n : ℕ) → ltb n 0 ≡ false
no_pad n = ground arith

get_or-last : (xs : List Bytes) (x : Bytes) → get_or (xs ++ x ∷ []) (length xs) [] ≡ x
get_or-last [] x = refl
get_or-last (y ∷ xs) x = get_or-last xs x

none_left :
    (used : List Bytes) (last : Bytes)
    → next_arg (used ++ last ∷ []) (length used + 1) ≡ ([], length used + 1)
unfolding next_arg
none_left used last =
    let all_used : ltb (length used + 1) (length (used ++ last ∷ [])) ≡ false =
      ground (arith, length-append used (last ∷ [])) in
    rw all_used refl

taken_again :
    (used : List Bytes) (last : Bytes)
    → next_arg (used ++ last ∷ []) (length used + 1 - 1) ≡ (last, length used + 1)
unfolding next_arg
taken_again used last =
    let back : length used + 1 - 1 ≡ length used = omega arith in
    let one_left : ltb (length used) (length (used ++ last ∷ [])) ≡ true =
      ground (arith, length-append used (last ∷ [])) in
    rw (back, one_left, get_or-last used last) refl

percent_round :
    (argv : List Bytes) (p : Bytes) (f argi : ℕ)
    → next_arg argv argi ≡ ([], argi)
    → format_loop argv (suc f) (codes "%%" ++ p) argi
      ≡ put_before (b'%' ∷ []) (format_loop argv f p (argi - 1))
unfolding format_loop
percent_round argv p f argi e = rw e refl

string_round :
    (argv : List Bytes) (p : Bytes) (f argi : ℕ) (arg : Bytes) (past : ℕ)
    → next_arg argv argi ≡ (arg, past)
    → format_loop argv (suc f) (codes "%s" ++ p) argi ≡ put_before arg (format_loop argv f p past)
unfolding format_loop
string_round argv p f argi arg past e = rw (e, no_pad (length arg)) refl

-- Where the arguments are used up, a doubled percent sign makes the last of them be taken again by a
-- %s behind it, or the format, which stands before the arguments, if there are none; the arguments
-- count as used up again behind it.
pub format_loop_again :
    (used : List Bytes) (last u : Bytes) (f : ℕ)
    → format_loop (used ++ last ∷ []) (suc (suc f)) (codes "%%%s" ++ u) (length used + 1)
      ≡ put_before (b'%' ∷ last) (format_loop (used ++ last ∷ []) f u (length used + 1))
format_loop_again used last u f =
    let argv = used ++ last ∷ [] in
    let rest = format_loop argv f u (length used + 1) in
    percent_round argv (codes "%s" ++ u) (suc f) (length used + 1) (none_left used last)
    ∙ ap (put_before (b'%' ∷ []))
        (string_round argv u f (length used + 1 - 1) last (length used + 1) (taken_again used last))
    ∙ put_before-put_before (b'%' ∷ []) last rest

percent_again :
    (fmt u : Bytes) (f : ℕ)
    → format_loop (fmt ∷ []) f u 1 ≡ some u
    → format_loop (fmt ∷ []) (suc (suc f)) (codes "%%%s" ++ u) 1 ≡ some (b'%' ∷ (fmt ++ u))
percent_again fmt u f tail = format_loop_again [] fmt u f ∙ ap (put_before (b'%' ∷ fmt)) tail

-- Of a format that is a doubled percent sign and then %s, with bytes that stand for themselves on
-- both sides, and with no argument, the format itself is printed for %s.
printf_main_again :
    (t u : Bytes)
    → IsPlain t
    → IsPlain u
    → printf_main (t ++ (codes "%%%s" ++ u)) []
      ≡ some (t ++ (b'%' ∷ ((t ++ (codes "%%%s" ++ u)) ++ u)))
unfolding printf_main format_loop
printf_main_again t u pt pu =
    let fmt = t ++ (codes "%%%s" ++ u) in
    let argv = fmt ∷ [] in
    let enough : length t ≤ length fmt = omega (arith, length-append t (codes "%%%s" ++ u)) in
    let left : length fmt - length t ≡ suc (suc (suc (suc (length u)))) =
      omega (arith, length-append t (codes "%%%s" ++ u)) in
    let tail = plain_whole argv u (suc (suc (length u))) 1 pu (omega arith) in
    plain_prefix argv t (codes "%%%s" ++ u) (length fmt) 1 pt enough
    ∙ rw left (ap (put_before t) (percent_again fmt u (suc (suc (length u))) tail))

-- A format that ends in a percent sign or a backslash, behind bytes that stand for themselves, is
-- read on behind its terminator.
pub printf_main_ends :
    (t : Bytes) (c : ℕ) (args : List Bytes)
    → IsPlain t
    → (c ≡ b'%') ⊎ (c ≡ b'\\')
    → printf_main (t ++ c ∷ []) args ≡ none
unfolding printf_main format_loop
printf_main_ends t c args pt which =
    let left : length (t ++ c ∷ []) - length t ≡ 1 = omega (arith, length-append t (c ∷ [])) in
    plain_prefix ((t ++ c ∷ []) ∷ args) t (c ∷ []) (length (t ++ c ∷ [])) 1 pt
      (omega (arith, length-append t (c ∷ [])))
    ∙ ap (put_before t)
        (ap (λ g. format_loop ((t ++ c ∷ []) ∷ args) g (c ∷ []) 1) left ∙ at_end which)
  where
    at_end : (c ≡ b'%') ⊎ (c ≡ b'\\') → format_loop ((t ++ c ∷ []) ∷ args) 1 (c ∷ []) 1 ≡ none
    at_end (inl e) = rw e refl
    at_end (inr e) = rw e refl
