-- ===== src/Sort/Laws.antt =====
-- tools/sort.c: the sort puts the lines in order and loses none.
use mathlib.Core.List.{Perm, perm_middle, reverse-cons, reverse_perm}
use mathlib.Core.List.Perm
use qoot.Base.{
  inl, inr, Bool, List, [], ◌∷◌, ◌++◌, append-nil, reverse, Bytes, All, All-append, All-reverse,
  Bool-cases,
}
use qoot.Str.{IsCString}
use qoot.Sort.{compare_lines, not_positive, insert_line, insert_all, sort_lines}
use qoot.Sort.Order.{Ordered, compare_lines_iff, Ordered-trans, Ordered-total}

module _ (numeric reverse_flag : Bool) where
  -- Every line comes before those behind it.
  abbrev pub IsSorted : List Bytes → Type 0
  IsSorted [] = Unit
  IsSorted (x ∷ l) = All (λ y. Ordered numeric reverse_flag x y) l × IsSorted l

  abbrev IsDescending : List Bytes → Type 0
  IsDescending [] = Unit
  IsDescending (x ∷ l) = All (λ y. Ordered numeric reverse_flag y x) l × IsDescending l

  insert_line-All :
      (P : Bytes → Type 0) (saved : Bytes) (l : List Bytes)
      → P saved
      → All P l
      → All P (insert_line numeric reverse_flag saved l)
  unfolding insert_line
  insert_line-All P saved [] p h = (p, tt)
  insert_line-All P saved (x ∷ l) p h =
      elim (Bool-cases (not_positive (compare_lines numeric reverse_flag x saved))) [
        | inl stop ↦ rw stop (p, h)
        | inr on ↦ rw on (h.0, insert_line-All P saved l p h.1)
      ]

  All-Ordered :
      (a b : Bytes) (l : List Bytes)
      → Ordered numeric reverse_flag a b
      → All (λ y. Ordered numeric reverse_flag y a) l
      → All (λ y. Ordered numeric reverse_flag y b) l
  All-Ordered a b [] h k = tt
  All-Ordered a b (y ∷ l) h k =
      (Ordered-trans numeric reverse_flag y a b k.0 h, All-Ordered a b l h k.1)

  insert_line-IsDescending :
      (saved : Bytes) (l : List Bytes)
      → IsCString saved
      → All IsCString l
      → IsDescending l
      → IsDescending (insert_line numeric reverse_flag saved l)
  unfolding insert_line
  insert_line-IsDescending saved [] c cl d = (tt, tt)
  insert_line-IsDescending saved (x ∷ l) c cl d =
      let (below, above) = compare_lines_iff numeric reverse_flag x saved cl.0 c in
      elim (Bool-cases (not_positive (compare_lines numeric reverse_flag x saved))) [
        | inl stop ↦ rw stop ((below stop, All-Ordered x saved l (below stop) d.0), d)
        | inr on ↦
            let after : Ordered numeric reverse_flag saved x =
              elim (Ordered-total numeric reverse_flag saved x) [
                | inl h ↦ h
                | inr h ↦ let e = above h in absurd (cc)
              ] in
            rw on (
              insert_line-All (λ y. Ordered numeric reverse_flag y x) saved l after d.0,
              insert_line-IsDescending saved l c cl.1 d.1,
            )
      ]

  insert_all-IsDescending :
      (todo done : List Bytes)
      → All IsCString todo
      → All IsCString done
      → IsDescending done
      → IsDescending (insert_all numeric reverse_flag todo done)
  unfolding insert_all
  insert_all-IsDescending [] done ct cd d = d
  insert_all-IsDescending (l ∷ todo) done ct cd d =
      insert_all-IsDescending todo (insert_line numeric reverse_flag l done) ct.1
        (insert_line-All IsCString l done ct.0 cd) (insert_line-IsDescending l done ct.0 cd d)

  IsSorted-append :
      (l : List Bytes) (x : Bytes)
      → IsSorted l
      → All (λ y. Ordered numeric reverse_flag y x) l
      → IsSorted (l ++ x ∷ [])
  IsSorted-append [] x s h = (tt, tt)
  IsSorted-append (y ∷ l) x s h = (
    All-append (λ z. Ordered numeric reverse_flag y z) l (x ∷ []) s.0 (h.0, tt),
    IsSorted-append l x s.1 h.1,
  )

  reverse-IsSorted : (l : List Bytes) → IsDescending l → IsSorted (reverse l)
  reverse-IsSorted [] d = tt
  reverse-IsSorted (x ∷ l) d = rw (reverse-cons x l) (
      IsSorted-append (reverse l) x (reverse-IsSorted l d.1)
        (All-reverse (λ y. Ordered numeric reverse_flag y x) l d.0))

  insert_line-perm :
      (saved : Bytes) (l : List Bytes) → Perm (insert_line numeric reverse_flag saved l) (saved ∷ l)
  unfolding insert_line
  insert_line-perm saved [] = Perm.refl (saved ∷ [])
  insert_line-perm saved (x ∷ l) =
      elim (Bool-cases (not_positive (compare_lines numeric reverse_flag x saved))) [
        | inl stop ↦ rw stop (Perm.refl (saved ∷ x ∷ l))
        | inr on ↦ rw on (Perm.trans (Perm.cons x (insert_line-perm saved l)) (Perm.swap saved x l))
      ]

  insert_all-perm :
      (todo done : List Bytes) → Perm (insert_all numeric reverse_flag todo done) (todo ++ done)
  unfolding insert_all
  insert_all-perm [] done = Perm.refl done
  insert_all-perm (l ∷ todo) done =
      Perm.trans (insert_all-perm todo (insert_line numeric reverse_flag l done))
        (Perm.trans (Perm.append_left todo (insert_line-perm l done)) (perm_middle todo done))

  -- Under every combination of the options, `sort_lines` puts the lines in the order asked for.
  pub sort_lines-IsSorted :
      (ls : List Bytes) → All IsCString ls → IsSorted (sort_lines numeric reverse_flag ls)
  unfolding sort_lines
  sort_lines-IsSorted ls c =
      reverse-IsSorted (insert_all numeric reverse_flag ls [])
        (insert_all-IsDescending ls [] c tt tt)

  -- `sort_lines` loses no line and invents none.
  pub sort_lines-perm : (ls : List Bytes) → Perm (sort_lines numeric reverse_flag ls) ls
  unfolding sort_lines
  sort_lines-perm ls =
      Perm.trans (reverse_perm (insert_all numeric reverse_flag ls []))
        (rw append-nil at (insert_all-perm ls []))
