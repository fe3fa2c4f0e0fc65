-- ===== src/Sh/Path/First.antt =====
-- tools/sh.c: the path that `find_in_path` finds.
use qoot.Base.{
  ◌<◌, ◌≡◌, refl, ap, sym, ◌∙◌, ◌⊎◌, inl, inr, Bool, true, false, List, [], ◌∷◌, ◌++◌, Bytes,
  length, All, arith, leb, Bool-cases, Option-cases,
}
use qoot.Sh.Environment.{Environment}
use qoot.Sh.Path.{found, search_dirs, search_list, find_in_path}
use qoot.Str.{str_chr}

-- The first of the directories in which the command is executable.
pub record IsFirst (executable : Bytes → Bool) (cmd : Bytes) (searched : List Bytes) (p : Bytes)
    : Type 0 where
  pub front : List Bytes
  pub dir : Bytes
  pub back : List Bytes
  pub split : searched ≡ front ++ dir ∷ back
  pub path : p ≡ dir ++ b'/' ∷ cmd
  pub none_before : All (λ d. executable (d ++ b'/' ∷ cmd) ≡ false) front

pub record IsFound (executable : Bytes → Bool) (env : Environment) (cmd p : Bytes) : Type 0 where
  pub executable_path : executable p ≡ true
  pub fits : length p < 4096
  pub place : (p ≡ cmd) ⊎ IsFirst executable cmd (search_list env) p

found_injective : {p q : Bytes} → found p ≡ found q → p ≡ q
found_injective h = cc

module _ (executable : Bytes → Bool) (cmd : Bytes) where
  search_dirs-found :
      (dirs : List Bytes) {p : Bytes}
      → search_dirs executable cmd dirs ≡ found p
      → (executable p ≡ true) × (length p < 4096) × IsFirst executable cmd dirs p
  unfolding search_dirs
  search_dirs-found [] h = cc
  search_dirs-found (dir ∷ dirs) {p} h =
      let out = dir ++ b'/' ∷ cmd in
      elim (Bool-cases (leb 4096 (length out))) [
        | inl long ↦ absurd (let e = rw long at h in cc)
        | inr short ↦ elim (Bool-cases (executable out)) [
          | inl here ↦
              let same : out ≡ p = found_injective (rw (short, here) at h) in
              (
                ap executable (sym same) ∙ here,
                rw (sym same) (ground arith),
                record {
                  front = [];
                  dir = dir;
                  back = dirs;
                  split = refl;
                  path = sym same;
                  none_before = tt;
                },
              )
          | inr further ↦
              let (e, fits, first) = search_dirs-found dirs {p = p} (rw (short, further) at h) in
              (
                e,
                fits,
                record {
                  front = dir ∷ first.front;
                  dir = first.dir;
                  back = first.back;
                  split = ap (◌∷◌ dir) first.split;
                  path = first.path;
                  none_before = (further, first.none_before);
                },
              )
        ]
      ]

  -- What `find_in_path` finds is executable and fits the array; it is the command itself, or it
  -- stands in the first directory of the search path in which the command is executable.
  pub find_in_path-IsFound :
      (env : Environment) {p : Bytes}
      → find_in_path executable env cmd ≡ found p
      → IsFound executable env cmd p
  unfolding find_in_path
  find_in_path-IsFound env {p} h = elim (Option-cases (str_chr cmd b'/')) [
    | inl bare ↦
        let (e, fits, first) =
          search_dirs-found (search_list env) {p = p} (rw (bare, find_in_path) at h) in
        record { executable_path = e; fits = fits; place = inr first }
    | inr (slash, e) ↦
        let h2 = rw (e, find_in_path) at h in
        elim (Bool-cases (executable cmd)) [
          | inr refused ↦ absurd (let f = rw refused at h2 in cc)
          | inl runs ↦ elim (Bool-cases (leb 4096 (length cmd))) [
            | inl long ↦ absurd (let f = rw (runs, long) at h2 in cc)
            | inr short ↦
                let same : cmd ≡ p = found_injective (rw (runs, short) at h2) in
                record {
                  executable_path = ap executable (sym same) ∙ runs;
                  fits = rw (sym same) (ground arith);
                  place = inl (sym same);
                }
          ]
        ]
  ]
