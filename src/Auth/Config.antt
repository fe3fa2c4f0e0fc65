-- ===== src/Auth/Config.antt =====
-- include/auth.h: what a configuration file grants, as a whole.

use qoot.Base.{
  ℕ, zero, suc, ◌<◌, ◌≤◌, ◌≡◌, ◌≢◌, ◌↔◌, ◌⊎◌, inl, inr, refl, ap, ◌∙◌, Bool, true, false, List, [],
  ◌∷◌, ◌++◌, append-nil, some, Bytes, get_or, set, length, length-set, All, arith, ne→==,
  Bool-cases, ◌==◌, if◌then◌else◌,
}
use qoot.Io.{Reader, Delivers, read_lines}
use qoot.Io.Lines.{unlines, Fits, read_lines-unlines, read_lines_blank}
use qoot.Io.Passwd.Laws.{
  Account, IsTable, cstr-IsCString, name_of, name_of-IsCString, uid_to_name-found,
}
use qoot.Str.{is_space, IsCString, cstr, peek, skip_space, str_len}
use qoot.Str.Copy.{cstr-str_ncpy, take-IsCString, take_all}
use qoot.Auth.{
  trim_end, is_skipped, trimmed_line, line_authorizes, authorized_in, user_name, is_user_authorized,
}
use qoot.Auth.Grants.{Authorizes, line_authorizes_iff}

-- The line without white space at its ends.
abbrev pub stripped : Bytes → Bytes
stripped line = trim_end (str_len (skip_space line)) (skip_space line)

-- The line is no comment, and it names the user or everybody.
abbrev pub Entitles : Bytes → Bytes → Type 0
Entitles user line = (is_skipped (skip_space line) ≡ false) × Authorizes user (stripped line)

abbrev pub AnyLine : (Bytes → Type 0) → List Bytes → Type 0
AnyLine P [] = ⊥
AnyLine P (l ∷ ls) = P l ⊎ AnyLine P ls

-- A line of the configuration as `read_line` stores it.
abbrev pub IsConfigLine : Bytes → Type 0
IsConfigLine l = IsCString l × Fits 1024 l

skip_space-IsCString : (s : Bytes) → IsCString s → IsCString (skip_space s)
unfolding skip_space
skip_space-IsCString [] h = tt
skip_space-IsCString (c ∷ s) h = elim (Bool-cases (is_space c)) [
  | inl blank ↦ rw blank (skip_space-IsCString s h.1)
  | inr other ↦ rw other h
]

length-skip_space-le : (s : Bytes) → length (skip_space s) ≤ length s
unfolding skip_space
length-skip_space-le [] = omega arith
length-skip_space-le (c ∷ s) = ground (arith, length-skip_space-le s)

trim_end-IsCString : (n : ℕ) (s : Bytes) → IsCString s → IsCString (trim_end n s)
unfolding trim_end
trim_end-IsCString zero s h = tt
trim_end-IsCString (suc n) s h = elim (Bool-cases (is_space (get_or s n 0))) [
  | inl blank ↦ rw blank (trim_end-IsCString n s h)
  | inr other ↦ rw other (take-IsCString (suc n) s h)
]

-- The copy into `trimmed` loses nothing of a line that is shorter than the array.
trimmed_line-short :
    (junk l : Bytes) → IsCString l → length l < 1023 → trimmed_line junk l ≡ trim_end (str_len l) l
unfolding trimmed_line
trimmed_line-short junk l c short = rw (cstr-str_ncpy junk l 1023 c short)

-- One line of the search: it is skipped, it decides, or the later lines do.
line_or_later :
    {A L : Type 0} (skipped now later : Bool)
    → (now ≡ true) ↔ A
    → (later ≡ true) ↔ L
    → ((if skipped then later else if now then true else later) ≡ true)
      ↔ ((skipped ≡ false) × A ⊎ L)
line_or_later true now later a l =
    (λ h. inr (l.0 h), elim [ inl (f, x) ↦ absurd (cc) | inr y ↦ l.1 y ])
line_or_later false true later a l = (λ h. inl (refl, a.0 refl), λ y. refl)
line_or_later false false later a l =
    (λ h. inr (l.0 h), elim [ inl (f, x) ↦ let e = a.1 x in absurd (cc) | inr y ↦ l.1 y ])

authorized_in_iff :
    (junk user : Bytes) (ls : List Bytes)
    → IsCString user
    → All IsConfigLine ls
    → (authorized_in junk user ls ≡ true) ↔ AnyLine (Entitles user) ls
unfolding authorized_in
authorized_in_iff junk user [] cu w = (λ h. absurd (cc), λ h. absurd h)
authorized_in_iff junk user (line ∷ ls) cu w =
    let whole : cstr line ≡ line = cstr-IsCString line w.0.0 in
    let l = skip_space line in
    let cl : IsCString l = skip_space-IsCString line w.0.0 in
    let copy : trimmed_line junk l ≡ stripped line =
      trimmed_line-short junk l cl (omega (arith, length-skip_space-le line, w.0.1.2)) in
    rw (whole, copy)
      (line_or_later (is_skipped l) (line_authorizes user (stripped line)) _
        (line_authorizes_iff user (stripped line) cu (trim_end-IsCString _ l cl))
        (authorized_in_iff junk user ls cu w.1))

peek-named : (u : Bytes) → IsCString u → u ≢ [] → (peek u == 0) ≡ false
peek-named [] c ne = absurd (ne refl)
peek-named (x ∷ u) c ne = ground arith

lines_fit : (ls : List Bytes) → All IsConfigLine ls → All (Fits 1024) ls
lines_fit [] w = tt
lines_fit (l ∷ ls) w = (w.0.1, lines_fit ls w.1)

-- What stands behind the lines that are read: nothing, or a blank line and anything.
abbrev pub Unread : Bytes → Type 0
Unread rest = (rest ≡ []) ⊎ ((hidden : Bytes) × (rest ≡ 10 ∷ hidden))

module _ (k : Reader) (d : Delivers k) (f : ℕ) where
  read_lines-Unread :
      (ls : List Bytes) (rest : Bytes) (s : k.State)
      → Unread rest
      → d.content s ≡ unlines ls ++ rest
      → All IsConfigLine ls
      → length ls < f
      → read_lines k f s 1024 ≡ ls
  read_lines-Unread ls rest s (inl e) text w fuel =
      read_lines-unlines k d ls 1024 f s
        (text ∙ ap (λ r. unlines ls ++ r) e ∙ append-nil (unlines ls)) (lines_fit ls w)
        (omega arith) fuel
  read_lines-Unread ls rest s (inr (hidden, e)) text w fuel =
      read_lines_blank k d ls hidden 1024 f s (text ∙ ap (λ r. unlines ls ++ r) e) (lines_fit ls w)
        (omega arith) fuel

  user_name-found :
      (name_junk : Bytes) (pw : k.State) (l : List Account) (uid : ℕ) {u : Bytes}
      → IsTable k d pw l
      → length l < f
      → name_of uid l ≡ some u
      → length name_junk ≡ 64
      → length u < 64
      → user_name k f name_junk (some pw) uid ≡ u
  unfolding user_name
  user_name-found name_junk pw l uid {u = u} t fuel found size short =
      let (r, text, bound) =
        uid_to_name-found k d f pw l uid 63 (set name_junk 0 0) {u = u} t fuel found
          (length-set name_junk 0 0 ∙ size) in
      text ∙ take_all 63 u (omega arith)

  -- Of a user other than root, whose number has an account in a well-formed table, with a name of 1
  -- to 63 bytes: is_user_authorized accepts the user exactly if one of the lines above the first
  -- blank line, which are strings of at most 1022 bytes, is no comment and, without the white space
  -- at its ends, is ALL, begins with ALL and a space, is the name, or begins with the name and a
  -- space or a tab.
  pub is_user_authorized_iff :
      (name_junk junk : Bytes) (conf pw : k.State) (uid : ℕ) (l : List Account) (ls : List Bytes)
      (rest : Bytes) {u : Bytes}
      → uid ≢ 0
      → length name_junk ≡ 64
      → IsTable k d pw l
      → length l < f
      → name_of uid l ≡ some u
      → u ≢ []
      → length u < 64
      → d.content conf ≡ unlines ls ++ rest
      → Unread rest
      → All IsConfigLine ls
      → length ls < f
      → (is_user_authorized k f name_junk junk (some conf) (some pw) uid ≡ true)
        ↔ AnyLine (Entitles u) ls
  unfolding is_user_authorized
  is_user_authorized_iff name_junk junk conf pw uid l ls rest {u = u} not_root size t fuel found
        named short text unread w fuel' =
      let cu = name_of-IsCString uid l {u = u} t.accounts found in
      let name = user_name-found name_junk pw l uid {u = u} t fuel found size short in
      let lines = read_lines-Unread ls rest conf unread text w fuel' in
      rw (ne→== uid 0 not_root, name, peek-named u cu named, lines)
        (authorized_in_iff junk u ls cu w)
