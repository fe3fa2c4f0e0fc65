-- ===== src/Tar/Header/Parts.antt =====
-- tools/tar.c: where the writes of a header stand.
use qoot.Base.{
  ℕ, ◌+◌, ◌%◌, ◌<◌, ◌≤◌, ◌≡◌, ◌⊎◌, inl, inr, refl, ap, ◌∙◌, false, [], ◌∷◌, Option, none, some,
  Bytes, length, All, All-append, arith, ltb, ◌==◌, ◌||◌, ◌^◌, ◌++◌, List, if◌then◌else◌,
  Bool-cases,
}
use qoot.Io.Mode.{file_type}
use qoot.Str.{str_len}
use qoot.Str.Laws.{str_len-length}
use qoot.Tar.{tar_ulong_to_oct}
use qoot.Tar.Header.{Stat, copied, name_writes, stat_writes, link_writes, type_writes, magic_writes}
use qoot.Tar.Header.Fits.{
  AreBytes, length-tar_ulong_to_oct, tar_ulong_to_oct-AreBytes, copied-AreBytes, length-copied,
}
use qoot.Tar.Writes.{Write, Spares}

-- A link's text, as `sys_readlink` gives it: at most 99 bytes.
abbrev pub IsLink : Option Bytes → Type 0
IsLink none = Unit
IsLink (some link) = (length link ≤ 99) × AreBytes link

pub name_writes_short :
    (path : Bytes)
    → length path ≤ 100
    → name_writes path ≡ record { offset = 0; bytes = copied path 100 } ∷ []
unfolding name_writes
name_writes_short path le =
    let short : ltb 100 (str_len path) ≡ false =
      ap (ltb 100) (str_len-length path) ∙ ground arith in
    rw short refl

module _ (P : Write → Type 0) (st : Stat) where
  stat_all :
      ((offset len v : ℕ)
        → 0 < len
        → (100 ≤ offset)
        → offset + len ≤ 148
        → P (record { offset = offset; bytes = tar_ulong_to_oct len v }))
      → All P (stat_writes st)
  unfolding stat_writes
  stat_all number = (
    number 100 8 (st.mode % 4096) (omega arith) (omega arith) (omega arith),
    (
      number 108 8 st.uid (omega arith) (omega arith) (omega arith),
      (
        number 116 8 st.gid (omega arith) (omega arith) (omega arith),
        (number 136 12 st.mtime (omega arith) (omega arith) (omega arith), tt),
      ),
    ),
  )

  link_all :
      (link : Option Bytes)
      → IsLink link
      → ((l : Bytes)
          → length l ≤ 99
          → AreBytes l
          → P (record { offset = 157; bytes = copied l 100 }))
      → All P (link_writes link)
  unfolding link_writes
  link_all none h linked = tt
  link_all (some l) h linked = (linked l h.0 h.1, tt)

  type_all :
      IsLink st.link
      → ((c : ℕ) → c < 256 → P (record { offset = 156; bytes = c ∷ [] }))
      → ((v : ℕ) → P (record { offset = 124; bytes = tar_ulong_to_oct 12 v }))
      → ((l : Bytes)
          → length l ≤ 99
          → AreBytes l
          → P (record { offset = 157; bytes = copied l 100 }))
      → All P (type_writes st)
  unfolding type_writes
  type_all h flag size linked = elim (Bool-cases (file_type st.mode == 4)) [
    | inl dir ↦ rw dir (flag b'5' (omega arith), (size 0, tt))
    | inr no_dir ↦ elim (Bool-cases (file_type st.mode == 10)) [
      | inl link ↦
          rw (no_dir, link)
            (
              flag b'2' (omega arith),
              All-append P (link_writes st.link)
                  (record { offset = 124; bytes = tar_ulong_to_oct 12 0 } ∷ [])
                  (link_all st.link h linked) (size 0, tt),
            )
      | inr file ↦ rw (no_dir, file) (flag b'0' (omega arith), (size st.size, tt))
    ]
  ]

pub stat_writes-AreBytes : (st : Stat) → All (λ w. AreBytes w.bytes) (stat_writes st)
stat_writes-AreBytes st =
    stat_all (λ w. AreBytes w.bytes) st
      (λ offset len v some_room low high. tar_ulong_to_oct-AreBytes len v)

pub type_writes-AreBytes :
    (st : Stat) → IsLink st.link → All (λ w. AreBytes w.bytes) (type_writes st)
type_writes-AreBytes st h =
    type_all (λ w. AreBytes w.bytes) st h (λ c small. (small, tt))
      (λ v. tar_ulong_to_oct-AreBytes 12 v)
      (λ l short bytes. copied-AreBytes l 100 (omega arith) (omega arith) bytes)

pub magic_writes-AreBytes : All (λ w. AreBytes w.bytes) magic_writes
magic_writes-AreBytes = omega arith

module _ (at len : ℕ) where
  pub stat_writes-Spares :
      (st : Stat) → (at + len ≤ 100) ⊎ (148 ≤ at) → All (Spares at len) (stat_writes st)
  stat_writes-Spares st (inl before) =
      stat_all (Spares at len) st (λ offset n v some_room low high. inl (omega arith))
  stat_writes-Spares st (inr behind) =
      stat_all (Spares at len) st (λ offset n v some_room low high.
        inr (omega (arith, length-tar_ulong_to_oct n v some_room)))

  pub type_writes-Spares :
      (st : Stat)
      → IsLink st.link
      → (at + len ≤ 124) ⊎ (258 ≤ at)
      → All (Spares at len) (type_writes st)
  type_writes-Spares st h (inl before) =
      type_all (Spares at len) st h (λ c small. inl (omega arith)) (λ v. inl (omega arith))
        (λ l short bytes. inl (omega arith))
  type_writes-Spares st h (inr behind) =
      type_all (Spares at len) st h (λ c small. inr (omega arith))
        (λ v. inr (omega (arith, length-tar_ulong_to_oct 12 v (omega arith))))
        (λ l short bytes. inr (omega (arith, (length-copied l 100 (omega arith) (omega arith)).1)))

  pub magic_writes-Spares : (at + len ≤ 148) ⊎ (265 ≤ at) → All (Spares at len) magic_writes
  magic_writes-Spares (inl before) =
      (inl (omega arith), (inl (omega arith), (inl (omega arith), tt)))
  magic_writes-Spares (inr behind) =
      (inr (omega arith), (inr (omega arith), (inr (omega arith), tt)))

-- The size that is stored: that of a file's content, and none for a directory or a link.
unfoldable pub stored_size : Stat → ℕ
stored_size st = if file_type st.mode == 4 || file_type st.mode == 10 then 0 else st.size

pub type_writes_last :
    (st : Stat)
    → (front : List Write) × (type_writes st
        ≡ front ++ record { offset = 124; bytes = tar_ulong_to_oct 12 (stored_size st) } ∷ [])
unfolding type_writes stored_size
type_writes_last st = elim (Bool-cases (file_type st.mode == 4)) [
  | inl dir ↦ (record { offset = 156; bytes = b'5' ∷ [] } ∷ [], rw dir refl)
  | inr no_dir ↦ elim (Bool-cases (file_type st.mode == 10)) [
    | inl link ↦
        (record { offset = 156; bytes = b'2' ∷ [] } ∷ link_writes st.link, rw (no_dir, link) refl)
    | inr file ↦ (record { offset = 156; bytes = b'0' ∷ [] } ∷ [], rw (no_dir, file) refl)
  ]
]

pub stored_size-le : (st : Stat) → st.size < 8 ^ 11 → stored_size st < 8 ^ 11
unfolding stored_size
stored_size-le st h = ground arith
