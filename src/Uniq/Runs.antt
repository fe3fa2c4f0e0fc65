-- ===== src/Uniq/Runs.antt =====
-- tools/uniq.c: the runs of equal lines, and what is printed for them.
use qoot.Base.{
  ℕ, zero, suc, ◌+◌, ◌%◌, ◌^◌, ◌<◌, ◌≡◌, ◌≢◌, refl, ap, sym, ◌∙◌, ◌⊎◌, inl, inr, true, false, not,
  ◌||◌, List, [], ◌∷◌, ◌++◌, append_assoc, append-nil, Bytes, length, replicate, All, All-append,
  arith, Bool-cases, ltb, if◌then◌else◌,
}
use qoot.Io.Lines.{unlines}
use qoot.Io.Passwd.Laws.{cstr-IsCString}
use qoot.Io.{Reader, Delivers}
use qoot.Str.Copy.{cstr-str_ncpy}
use qoot.Str.Laws.{str_eq_iff}
use qoot.Str.Search.{Lacks}
use qoot.Str.{IsCString, cstr, str_eq}
use qoot.Uniq.Pieces.{Short, Short-unlines, whole_start, read_pieces-whole}
use qoot.Uniq.{Flags, Uniq, initial, read_pieces, row, flush, line_step, buffer_loop, uniq_main}

-- Lines, and how often each of them stands there.
abbrev pub expand : List (Bytes × ℕ) → List Bytes
expand [] = []
expand ((l, n) ∷ runs) = replicate n l ++ expand runs

-- A line that fits in `prev`, at least once.
abbrev pub IsRun : Bytes × ℕ → Type 0
IsRun (l, n) = Lacks 10 l × IsCString l × (length l < 4095) × (0 < n) × (n < 2 ^ 64)

-- Neighbours are not the same line.
abbrev pub Differ : List (Bytes × ℕ) → Type 0
Differ [] = Unit
Differ ((l, n) ∷ []) = Unit
Differ ((l, n) ∷ (m, j) ∷ runs) = (l ≢ m) × Differ ((m, j) ∷ runs)

abbrev pub shown_run : Flags → Bytes → ℕ → Bytes
shown_run o l n = if not o.dup_only || ltb 1 n then row o l n else []

-- A row for each run; with `-d` only for those of two lines or more.
abbrev pub rows : Flags → List (Bytes × ℕ) → Bytes
rows o [] = []
rows o ((l, n) ∷ runs) = shown_run o l n ++ rows o runs

module _ (o : Flags) where
  abbrev steps : Uniq → List Bytes → Uniq
  steps u [] = u
  steps u (l ∷ ls) = steps (line_step o u l) ls

  steps-append : (u : Uniq) (a b : List Bytes) → steps u (a ++ b) ≡ steps (steps u a) b
  steps-append u [] b = refl
  steps-append u (l ∷ a) b = steps-append (line_step o u l) a b

  buffer_loop-steps :
      (ls : List Bytes) (u : Uniq)
      → All (Lacks 10) ls
      → (buffer_loop o true (unlines ls) [] u).1 ≡ steps u ls
  unfolding buffer_loop
  buffer_loop-steps [] u free = refl
  buffer_loop-steps (l ∷ ls) u free =
      ap (λ (r : Bytes × Uniq). r.1) (whole_start o l [] (10 ∷ unlines ls) u free.0)
      ∙ buffer_loop-steps ls (line_step o u l) free.1

  -- The variables behind `n` lines `l`, where `out` was printed before.
  abbrev Holds : Uniq → Bytes → ℕ → Bytes → Type 0
  Holds u l n out = (u.have_prev ≡ true) × (cstr u.prev ≡ l) × (u.count ≡ n) × (u.out ≡ out)

  new_line :
      (u : Uniq) (l : Bytes)
      → IsCString l
      → length l < 4095
      → (u.have_prev ≡ false) ⊎ (str_eq l (cstr u.prev) ≡ false)
      → Holds (line_step o u l) l 1 (u.out ++ flush o u)
  unfolding line_step
  new_line u l c fits (inl none_yet) =
      let same = cstr-IsCString l c in
      rw (none_yet, same) (refl, cstr-str_ncpy u.prev l 4095 c fits, refl, refl)
  new_line u l c fits (inr other) = old (Bool-cases u.have_prev)
    where
      old :
          (u.have_prev ≡ true) ⊎ (u.have_prev ≡ false)
          → Holds (line_step o u l) l 1 (u.out ++ flush o u)
      old (inr none_yet) =
          let same = cstr-IsCString l c in
          rw (none_yet, same) (refl, cstr-str_ncpy u.prev l 4095 c fits, refl, refl)
      old (inl some_yet) =
          let same = cstr-IsCString l c in
          rw (some_yet, same, other) (refl, cstr-str_ncpy u.prev l 4095 c fits, refl, refl)

  same_line :
      (u : Uniq) (l : Bytes) (n : ℕ) (out : Bytes)
      → IsCString l
      → suc n < 2 ^ 64
      → Holds u l n out
      → Holds (line_step o u l) l (suc n) out
  unfolding line_step
  same_line u l n out c room h =
      let equal : str_eq (cstr l) (cstr u.prev) ≡ true =
        rw (h.1, cstr-IsCString l c) ((str_eq_iff l l c c).1 refl) in
      let one_more : (u.count + 1) % 2 ^ 64 ≡ suc n = omega (arith, h.2) in
      rw (h.0, equal) (refl, h.1, one_more, h.3)

  more_lines :
      (u : Uniq) (l : Bytes) (n j : ℕ) (out : Bytes)
      → IsCString l
      → n + j < 2 ^ 64
      → Holds u l n out
      → Holds (steps u (replicate j l)) l (n + j) out
  more_lines u l n zero out c room h =
      let same : n ≡ n + 0 = omega arith in (h.0, h.1, h.2 ∙ same, h.3)
  more_lines u l n (suc j) out c room h =
      let same : suc n + j ≡ n + suc j = omega arith in
      let next = same_line u l n out c (omega arith) h in
      let r = more_lines (line_step o u l) l (suc n) j out c (omega arith) next in
      (r.0, r.1, r.2 ∙ same, r.3)

  flush-Holds :
      (u : Uniq) (l : Bytes) (n : ℕ) (out : Bytes) → Holds u l n out → flush o u ≡ shown_run o l n
  unfolding flush
  flush-Holds u l n out h = rw (h.0, h.1, h.2) refl

  -- A run, from the first of its lines on.
  whole_run :
      (u : Uniq) (l : Bytes) (n : ℕ)
      → IsRun (l, n)
      → (u.have_prev ≡ false) ⊎ (str_eq l (cstr u.prev) ≡ false)
      → Holds (steps u (replicate n l)) l n (u.out ++ flush o u)
  whole_run u l zero run new = absurd (omega (arith, run.3))
  whole_run u l (suc n) run new =
      let same : 1 + n ≡ suc n = omega arith in
      let first = new_line u l run.1 run.2 new in
      let r =
        more_lines (line_step o u l) l 1 n (u.out ++ flush o u) run.1 (omega (arith, run.4))
          first in
      (r.0, r.1, r.2 ∙ same, r.3)

  later_runs :
      (runs : List (Bytes × ℕ)) (u : Uniq) (l : Bytes) (n : ℕ) (out : Bytes)
      → IsCString l
      → All IsRun runs
      → Differ ((l, n) ∷ runs)
      → Holds u l n out
      → (steps u (expand runs)).out ++ flush o (steps u (expand runs))
        ≡ out ++ rows o ((l, n) ∷ runs)
  later_runs [] u l n out c all apart h =
      ap (λ (t : Bytes). t ++ flush o u) h.3
      ∙ ap (λ t. out ++ t) (flush-Holds u l n out h ∙ sym (append-nil (shown_run o l n)))
  later_runs ((m, j) ∷ runs) u l n out c all apart h =
      let differs : str_eq m (cstr u.prev) ≡ false =
        rw h.1 (not_equal m l all.0.1 c (λ e. apart.0 (sym e))) in
      let v = steps u (replicate j m) in
      let run = whole_run u m j all.0 (inr differs) in
      let shown : u.out ++ flush o u ≡ out ++ shown_run o l n =
        ap (λ (t : Bytes). t ++ flush o u) h.3 ∙ ap (λ t. out ++ t) (flush-Holds u l n out h) in
      let held : Holds v m j (out ++ shown_run o l n) = (run.0, run.1, run.2, run.3 ∙ shown) in
      rw (steps-append u (replicate j m) (expand runs)) (
        later_runs runs v m j (out ++ shown_run o l n) all.0.1 all.1 apart.1 held
        ∙ append_assoc out (shown_run o l n) (rows o ((m, j) ∷ runs)))
    where
      not_equal : (a b : Bytes) → IsCString a → IsCString b → a ≢ b → str_eq a b ≡ false
      not_equal a b ca cb ne = ground (arith, str_eq_iff a b ca cb)

replicate-All : (P : Bytes → Type 0) (n : ℕ) (l : Bytes) → P l → All P (replicate n l)
replicate-All P zero l h = tt
replicate-All P (suc n) l h = (h, replicate-All P n l h)

expand-All :
    (P : Bytes → Type 0) (runs : List (Bytes × ℕ))
    → ((l : Bytes) (n : ℕ) → IsRun (l, n) → P l)
    → All IsRun runs
    → All P (expand runs)
expand-All P [] each all = tt
expand-All P ((l, n) ∷ runs) each all =
    All-append P (replicate n l) (expand runs) (replicate-All P n l (each l n all.0))
      (expand-All P runs each all.1)

all_runs :
    (o : Flags) (runs : List (Bytes × ℕ))
    → All IsRun runs
    → Differ runs
    → (steps o initial (expand runs)).out ++ flush o (steps o initial (expand runs)) ≡ rows o runs
unfolding flush
all_runs o [] all apart = refl
all_runs o ((l, n) ∷ runs) all apart =
    let run = whole_run o initial l n all.0 (inl refl) in
    rw (steps-append o initial (replicate n l) (expand runs))
      (later_runs o runs (steps o initial (replicate n l)) l n [] all.0.1 all.1 apart run)

-- Of lines shorter than 4095 bytes, each with its newline, that are strings, uniq prints one row for
-- each run of equal lines, with its length under -c, and under -d only for those of two or more, in
-- whatever pieces the input comes.
pub uniq_main-rows :
    (k : Reader) (d : Delivers k) (o : Flags) (runs : List (Bytes × ℕ)) (f : ℕ) (fd : k.State)
    → d.content fd ≡ unlines (expand runs)
    → All IsRun runs
    → Differ runs
    → length (d.content fd) < f
    → uniq_main k o f fd ≡ rows o runs
unfolding uniq_main
uniq_main-rows k d o runs f fd text all apart fuel =
    let lines =
      expand-All (λ l. Lacks 10 l × (length l < 65535)) runs (λ l n r. (r.0, omega (arith, r.2)))
        all in
    let free = expand-All (Lacks 10) runs (λ l n r. r.0) all in
    let short : Short 65535 (d.content fd) = rw text (Short-unlines (expand runs) lines) in
    let whole : read_pieces k o f fd [] initial ≡ steps o initial (expand runs) =
      read_pieces-whole o k d f fd [] 65535 initial tt (omega arith) short fuel
      ∙ ap (λ (t : Bytes). (buffer_loop o true t [] initial).1) text
      ∙ buffer_loop-steps o (expand runs) initial free in
    rw whole (all_runs o runs all apart)
