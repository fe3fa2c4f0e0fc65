-- ===== src/Realpath/Normal.antt =====
-- tools/realpath.c: what a canonical path looks like.
use mathlib.Core.List.{cons-ne-nil, reverse-cons, reverse-reverse}
use qoot.Base.{
  Bool, true, some, Option-cases, subst, ltb, lt→ltb, ltb→lt, length-drop, length-reverse, ◌&&◌,
  if◌then◌else◌, ◌+◌, ℕ, zero, suc, ◌<◌, ◌≤◌, ◌≡◌, ◌≢◌, refl, ap, sym, ◌∙◌, inl, inr, false, List,
  [], ◌∷◌, ◌++◌, map, none, All-append, append_assoc, append-nil, Bytes, codes, length,
  length-append, drop, drop-length-append, reverse, All, All-imply, All-reverse, arith, ◌==◌, ne→==,
  Bool-cases,
}
use qoot.Realpath.{
  is_slash, skip_slashes, push, components_loop, slashed, out_of, canonical, resolve_path,
}
use qoot.Sh.Words.{until}
use qoot.Str.{IsCString, peek}
use qoot.Realpath.Names.{IsName, Inside, AreNames, OnSome, components_loop-names}

-- A name between slashes is found as it stands.
until_name :
    (c : Bytes) (cs : List Bytes)
    → All (λ x. (0 < x) × (x ≢ b'/')) c
    → until is_slash (c ++ slashed cs) ≡ c
unfolding until
until_name [] [] free = refl
until_name [] (d ∷ cs) free = refl
until_name (x ∷ c) cs free = rw (ne→== x b'/' free.0.1, until_name c cs free.1)

skip_to_name :
    (c rest : Bytes)
    → c ≢ []
    → All (λ x. (0 < x) × (x ≢ b'/')) c
    → (skip_slashes (c ++ rest) ≡ c ++ rest) × ((peek (c ++ rest) == 0) ≡ false)
unfolding skip_slashes
skip_to_name [] rest some_byte free = absurd (some_byte refl)
skip_to_name (x ∷ c) rest some_byte free = (rw (ne→== x b'/' free.0.1), ne→== x 0 (omega arith))

-- What a path is made of.
pub data Item : Type 0 where
  name : (c : Bytes) → IsName c → Item
  here up : Item

abbrev pub item_text : Item → Bytes
item_text (name c is_name) = c
item_text here = codes "."
item_text up = codes ".."

-- The names that are left when the items are followed, the last one first.
unfoldable pub followed : List Bytes → List Item → List Bytes
followed kept [] = kept
followed kept (name c is_name ∷ items) = followed (c ∷ kept) items
followed kept (here ∷ items) = followed kept items
followed kept (up ∷ items) = followed (drop 1 kept) items

item_bytes :
    (item : Item) → (item_text item ≢ []) × All (λ x. (0 < x) × (x ≢ b'/')) (item_text item)
item_bytes (name c is_name) = (is_name.0, is_name.1)
item_bytes here = (cons-ne-nil _ _, omega arith)
item_bytes up = (cons-ne-nil _ _, omega arith)

push-followed :
    (item : Item) (items : List Item) (kept : List Bytes)
    → length kept < 256
    → (pushed : List Bytes) × (push (item_text item) kept ≡ some pushed)
      × (followed kept (item ∷ items) ≡ followed pushed items)
      × (length pushed ≤ suc (length kept))
unfolding followed push
push-followed (name c is_name) items kept room =
    (c ∷ kept, rw (is_name.2, is_name.3, lt→ltb (length kept) 256 room), refl, omega arith)
push-followed here items kept room = (kept, refl, refl, omega arith)
push-followed up items kept room = (drop 1 kept, refl, refl, omega (arith, length-drop 1 kept))

components_loop-followed :
    (f : ℕ) (items : List Item) (kept : List Bytes)
    → length items ≤ f
    → length kept + length items ≤ 256
    → components_loop f (slashed (map item_text items)) kept ≡ some (followed kept items)
unfolding components_loop
components_loop-followed zero [] kept enough room = unfold followed in refl
components_loop-followed zero (item ∷ items) kept enough room = absurd (omega arith)
components_loop-followed (suc f) [] kept enough room = unfold skip_slashes followed in refl
components_loop-followed (suc f) (item ∷ items) kept enough room =
    let (some_byte, free) = item_bytes item in
    let c = item_text item in
    let (found, more) = skip_to_name c (slashed (map item_text items)) some_byte free in
    let word = until_name c (map item_text items) free in
    let rest = drop-length-append c (slashed (map item_text items)) in
    let (pushed, stored, same, few) = push-followed item items kept (omega arith) in
    let later = components_loop-followed f items pushed (omega arith) (omega arith) in
    rw (found, more, word, stored) (rw (found, word, rest) (later ∙ ap some (sym same)))

length-slashed : (items : List Item) → length items ≤ length (slashed (map item_text items))
length-slashed [] = omega arith
length-slashed (item ∷ items) =
    omega
      (arith, length-append (item_text item) (slashed (map item_text items)), length-slashed items)

canonical-followed :
    (items : List Item)
    → length items ≤ 256
    → length (slashed (map item_text items)) < 4096
    → length (out_of (reverse (followed [] items))) < 4096
    → canonical (slashed (map item_text items)) ≡ some (out_of (reverse (followed [] items)))
unfolding canonical
canonical-followed items few short fits =
    let tmp = slashed (map item_text items) in
    let out = out_of (reverse (followed [] items)) in
    rw
      (
        components_loop-followed (length tmp) items [] (length-slashed items) (omega arith),
        canonical,
        lt→ltb (length tmp) 4096 short,
        lt→ltb (length out) 4096 fits,
      )
      refl

-- A path that is put together from at most 256 names, dots and pairs of dots, each behind a slash, is
-- resolved by hand to the names that are left when each pair of dots takes away the last name before
-- it; the path and the result have fewer than 4096 bytes.
pub resolve_path-followed :
    (cwd : Bytes) (item : Item) (items : List Item)
    → length (item ∷ items) ≤ 256
    → length (slashed (map item_text (item ∷ items))) < 4096
    → length (out_of (reverse (followed [] (item ∷ items)))) < 4096
    → resolve_path none cwd (slashed (map item_text (item ∷ items)))
      ≡ some (out_of (reverse (followed [] (item ∷ items))))
unfolding resolve_path
resolve_path-followed cwd item items few short fits =
    canonical-followed (item ∷ items) few short fits

-- Names are left as they are.
items_of : (cs : List Bytes) → All IsName cs → List Item
items_of [] names = []
items_of (c ∷ cs) names = name c names.0 ∷ items_of cs names.1

items_of-text : (cs : List Bytes) (names : All IsName cs) → map item_text (items_of cs names) ≡ cs
unfolding items_of
items_of-text [] names = refl
items_of-text (c ∷ cs) names = ap (◌∷◌ c) (items_of-text cs names.1)

items_of-followed :
    (cs kept : List Bytes) (names : All IsName cs)
    → followed kept (items_of cs names) ≡ reverse cs ++ kept
unfolding items_of followed
items_of-followed [] kept names = refl
items_of-followed (c ∷ cs) kept names =
    items_of-followed cs (c ∷ kept) names.1
    ∙ sym (append_assoc (reverse cs) (c ∷ []) kept)
    ∙ ap (λ (l : List Bytes). l ++ kept) (sym (reverse-cons c cs))

some_injective : {a b : Bytes} → some a ≡ some b → a ≡ b
some_injective h = cc

length-items_of : (cs : List Bytes) (names : All IsName cs) → length (items_of cs names) ≡ length cs
unfolding items_of
length-items_of [] names = refl
length-items_of (c ∷ cs) names = ap suc (length-items_of cs names.1)

canonical-out_of :
    (cs : List Bytes)
    → AreNames cs
    → length (out_of cs) < 4096
    → canonical (out_of cs) ≡ some (out_of cs)
canonical-out_of [] names short = unfold canonical components_loop skip_slashes in refl
canonical-out_of (c ∷ cs) names short =
    let items = items_of (c ∷ cs) names.0 in
    let text : map item_text items ≡ c ∷ cs = items_of-text (c ∷ cs) names.0 in
    let kept : reverse (followed [] items) ≡ c ∷ cs =
      ap reverse (items_of-followed (c ∷ cs) [] names.0 ∙ append-nil (reverse (c ∷ cs)))
      ∙ reverse-reverse (c ∷ cs) in
    let few : length items ≤ 256 = omega (arith, names.1, length-items_of (c ∷ cs) names.0) in
    let tmp : length (slashed (map item_text items)) < 4096 = rw text short in
    let out : length (out_of (reverse (followed [] items))) < 4096 = rw kept short in
    ap (λ (l : List Bytes). canonical (slashed l)) (sym text)
    ∙ canonical-followed items few tmp out
    ∙ ap (λ (l : List Bytes). some (out_of l)) kept

-- A path by hand: names with a slash before each of them, or a slash alone, and it stays as it is when
-- it is resolved by hand again.
abbrev pub IsCanonical : Bytes → Type 0
IsCanonical out =
    ((cs : List Bytes) × All IsName cs × (out ≡ out_of cs)) × (canonical out ≡ some out)

AreNames-reverse : (cs : List Bytes) → AreNames cs → AreNames (reverse cs)
AreNames-reverse cs h = (All-reverse IsName cs h.0, omega (arith, h.1, length-reverse cs))

by_hand : (tmp : Bytes) {out : Bytes} → Inside tmp → canonical tmp ≡ some out → IsCanonical out
unfolding canonical
by_hand tmp {out} inside e = elim (Option-cases (components_loop (length tmp) tmp [])) [
  | inl overrun ↦ absurd (let h = rw (overrun, canonical) at e in cc)
  | inr (cs, kept) ↦
      let names =
        subst (OnSome AreNames) kept
          (components_loop-names (length tmp) tmp [] inside (tt, omega arith)) in
      stored (reverse cs) (ltb (length tmp) 4096) (AreNames-reverse cs names)
        (rw (kept, canonical) at e)
]
  where
    stored :
        (cs : List Bytes) (short : Bool)
        → AreNames cs
        → (if short && ltb (length (out_of cs)) 4096 then some (out_of cs) else none) ≡ some out
        → IsCanonical out
    stored cs false names e = cc
    stored cs true names e = elim (Bool-cases (ltb (length (out_of cs)) 4096)) [
      | inr long ↦ absurd (let h = rw long at e in cc)
      | inl fits ↦
          let same : out_of cs ≡ out = some_injective (rw fits at e) in
          subst IsCanonical same ((cs, names.0, refl), canonical-out_of cs names (ltb→lt _ _ fits))
    ]

-- Where resolve_path resolves a path by hand, and overruns none of its arrays, the result consists of
-- names, which are neither empty nor a dot nor two dots and have no slash, with a slash before each
-- of them, or is a slash alone, and does not change when it is resolved by hand again; the path and
-- the current directory are strings.
pub resolve_path-IsCanonical :
    (cwd path : Bytes) {out : Bytes}
    → IsCString cwd
    → IsCString path
    → resolve_path none cwd path ≡ some out
    → IsCanonical out
unfolding resolve_path
resolve_path-IsCanonical cwd path {out} c_cwd c_path e = elim (Bool-cases (is_slash (peek path))) [
  | inl whole ↦ by_hand path {out = out} (strings path c_path) (rw whole at e)
  | inr part ↦
      by_hand (cwd ++ (codes "/" ++ path)) {out = out}
        (All-append (λ x. 0 < x) cwd (codes "/" ++ path) (strings cwd c_cwd)
          (omega arith, strings path c_path))
        (rw part at e)
]
  where
    strings : (p : Bytes) → IsCString p → Inside p
    strings p = All-imply {P = λ x. (0 < x) × (x < 256)} {Q = λ x. 0 < x} p (λ x h. h.0)
