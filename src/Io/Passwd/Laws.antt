-- ===== src/Io/Passwd/Laws.antt =====
-- include/io.h: on a well-formed table the searches find the first account that fits.
use qoot.Base.{
  ℕ, suc, ◌-◌, ◌^◌, ◌<◌, ◌≡◌, refl, ◌∙◌, List, [], ◌∷◌, ◌++◌, Bytes, length, length-map, take, All,
  arith, ◌==◌, if◌then◌else◌, Option, none, some, map, Bool-cases, inl, inr, ne→==,
}
use qoot.Str.{IsCString, cstr, str_eq, is_digit}
use qoot.Str.Copy.{terminated_copy}
use qoot.Str.Search.{Lacks}
use qoot.Str.Digits.{uint_to_str}
use qoot.Str.Parse.{str_to_uint}
use qoot.Str.RoundTrip.{str_to_uint-uint_to_str}
use qoot.Io.{Reader, Delivers, read_lines}
use qoot.Io.Lines.{unlines, Fits, read_lines-unlines}
use qoot.Io.Passwd.{before_colon, entry, find_name, find_id, uid_to_name, name_to_uid}

-- A line of the table: `name:password:id:rest`.
pub record Account : Type 0 where
  pub name : Bytes
  pub password : Bytes
  pub id : ℕ
  pub rest : Bytes

abbrev pub line_of : Account → Bytes
line_of a = a.name ++ b':' ∷ (a.password ++ b':' ∷ ((uint_to_str a.id).0 ++ b':' ∷ a.rest))

pub record IsAccount (a : Account) : Type 0 where
  pub c_line : IsCString (line_of a)
  pub c_name : IsCString a.name
  pub name_free : Lacks b':' a.name
  pub password_free : Lacks b':' a.password
  pub id_fits : a.id < 2 ^ 32

before_colon_skip : (u r : Bytes) → Lacks b':' u → before_colon (u ++ b':' ∷ r) ≡ some (u, r)
unfolding before_colon
before_colon_skip [] r l = refl
before_colon_skip (c ∷ u) r l = rw (ne→== c b':' l.0, before_colon, before_colon_skip u r l.1)

entry-line_of :
    (a : Account)
    → IsAccount a
    → entry (line_of a) ≡ some (a.name, (uint_to_str a.id).0 ++ b':' ∷ a.rest)
unfolding entry
entry-line_of a w =
    rw (before_colon_skip a.name _ w.name_free, before_colon_skip a.password _ w.password_free)

pub cstr-IsCString : (s : Bytes) → IsCString s → cstr s ≡ s
unfolding cstr
cstr-IsCString [] h = refl
cstr-IsCString (c ∷ s) h = ground (arith, cstr-IsCString s h.1)

id-line_of :
    (a : Account) → IsAccount a → str_to_uint ((uint_to_str a.id).0 ++ b':' ∷ a.rest) ≡ a.id
id-line_of a w = str_to_uint-uint_to_str a.id (b':' ∷ a.rest) w.id_fits (unfold is_digit in refl)

-- The first account with a number, and with a name.
abbrev pub name_of : ℕ → List Account → Option Bytes
name_of id [] = none
name_of id (a ∷ as') = if a.id == id then some a.name else name_of id as'

find_name-lines :
    (id : ℕ) (l : List Account) → All IsAccount l → find_name id (map line_of l) ≡ name_of id l
unfolding find_name
find_name-lines id [] w = refl
find_name-lines id (a ∷ l) w =
    let same = cstr-IsCString (line_of a) w.0.c_line in
    let e = entry-line_of a w.0 in
    let n = id-line_of a w.0 in
    let more = find_name-lines id l w.1 in rw (same, e, find_name, n, more)

-- The first account with a name.
abbrev pub id_of : Bytes → List Account → Option ℕ
id_of name [] = none
id_of name (a ∷ l) = if str_eq a.name name then some a.id else id_of name l

find_id-lines :
    (name : Bytes) (l : List Account)
    → All IsAccount l
    → find_id name (map line_of l) ≡ id_of name l
unfolding find_id
find_id-lines name [] w = refl
find_id-lines name (a ∷ l) w =
    let same = cstr-IsCString (line_of a) w.0.c_line in
    let e = entry-line_of a w.0 in
    let n = id-line_of a w.0 in
    let more = find_id-lines name l w.1 in rw (same, e, find_id, n, more)

pub name_of-IsCString :
    (id : ℕ) (l : List Account) {u : Bytes} → All IsAccount l → name_of id l ≡ some u → IsCString u
name_of-IsCString id [] w h = absurd (cc)
name_of-IsCString id (a ∷ l) {u = u} w h = elim (Bool-cases (a.id == id)) [
  | inl here ↦ let e : a.name ≡ u = ground arith in rw (← e) w.0.c_name
  | inr later ↦ name_of-IsCString id l {u = u} w.1 (ground arith)
]

-- A table of accounts whose lines fit in the 1024 bytes of the line buffer.
pub record IsTable (k : Reader) (d : Delivers k) (fd : k.State) (l : List Account) : Type 0 where
  pub text : d.content fd ≡ unlines (map line_of l)
  pub fit : All (Fits 1024) (map line_of l)
  pub accounts : All IsAccount l

module _ (k : Reader) (d : Delivers k) (f : ℕ) (fd : k.State) (l : List Account) where
  lines_of_table : IsTable k d fd l → length l < f → read_lines k f fd 1024 ≡ map line_of l
  lines_of_table t fuel =
      read_lines-unlines k d (map line_of l) 1024 f fd t.text t.fit (omega arith)
        (omega (arith, length-map line_of l))

  -- On a table, `uid_to_name` stores the name of the first account with that number, cut to the
  -- caller's array and terminated inside it.
  pub uid_to_name-found :
      (uid m : ℕ) (name : Bytes) {u : Bytes}
      → IsTable k d fd l
      → length l < f
      → name_of uid l ≡ some u
      → length name ≡ suc m
      → ((uid_to_name k f (some fd) uid name (suc m)).0 ≡ 1)
        × (cstr (uid_to_name k f (some fd) uid name (suc m)).1 ≡ take m u)
        × (length (uid_to_name k f (some fd) uid name (suc m)).1 ≡ suc m)
  unfolding uid_to_name
  uid_to_name-found uid m name {u = u} t fuel found size =
      let lookup : find_name uid (read_lines k f fd 1024) ≡ some u =
        rw (lines_of_table t fuel) (find_name-lines uid l t.accounts ∙ found) in
      let last : suc m - 1 ≡ m = omega arith in
      let (text, bound) =
        terminated_copy name u m (name_of-IsCString uid l {u = u} t.accounts found) size in
      rw (lookup, uid_to_name, last) (refl, text, bound)

  -- With no account of that number the array is left as it was.
  pub uid_to_name-missing :
      (uid m : ℕ) (name : Bytes)
      → IsTable k d fd l
      → length l < f
      → name_of uid l ≡ none
      → uid_to_name k f (some fd) uid name m ≡ (0, name)
  unfolding uid_to_name
  uid_to_name-missing uid m name t fuel missing =
      let lookup : find_name uid (read_lines k f fd 1024) ≡ none =
        rw (lines_of_table t fuel) (find_name-lines uid l t.accounts ∙ missing) in
      rw (lookup, uid_to_name)

  -- On a table, `name_to_uid` is the number of the first account with that name.
  name_to_uid-table :
      (name : Bytes)
      → IsTable k d fd l
      → length l < f
      → name_to_uid k f (some fd) name ≡ id_of name l
  unfolding name_to_uid
  name_to_uid-table name t fuel = rw (lines_of_table t fuel) (find_id-lines name l t.accounts)
