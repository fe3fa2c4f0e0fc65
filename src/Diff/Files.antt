-- ===== src/Diff/Files.antt =====
-- tools/diff.c: two files of lines, from reading them to what is returned.

use qoot.Base.{
  ℕ, zero, suc, ◌+◌, ◌*◌, ◌<◌, ◌≤◌, ◌≡◌, ◌≢◌, refl, ap, subst, sym, ◌∙◌, ◌⊎◌, ◌↔◌, inl, inr, true,
  List, [], ◌∷◌, ◌++◌, append_assoc, append-nil, some, Bytes, length, All, All-append, arith,
  Bool-cases,
}
use qoot.Base.Int.{pos}
use qoot.Diff.{Hunk, Stored, store_lines, last_line, is_stored, diff_main, same_lines}
use qoot.Diff.Patch.{patch, forward, backward, patch-simple_diff}
use qoot.Io.Passwd.Laws.{cstr-IsCString}
use qoot.Io.{Reader, Delivers, read_line}
use qoot.Io.Lines.{unlines, Fits, read_line_whole, read_line_end, read_line-past_end}
use qoot.Str.{IsCString}
use qoot.Str.Laws.{str_eq_iff}

-- The room that lines take in the storage.
abbrev pub size : List Bytes → ℕ
size [] = 0
size (l ∷ ls) = length l + 1 + size ls

is_stored-le : (l : Bytes) (used : ℕ) → used + (length l + 1) ≤ 512 * 1024 → is_stored l used ≡ true
unfolding is_stored
is_stored-le l used h = ground arith

same_lines_iff :
    (a b : List Bytes) → All IsCString a → All IsCString b → (same_lines a b ≡ true) ↔ (a ≡ b)
unfolding same_lines
same_lines_iff [] [] ca cb = (λ h. refl, λ h. refl)
same_lines_iff [] (y ∷ b) ca cb = ground arith
same_lines_iff (x ∷ a) [] ca cb = ground arith
same_lines_iff (x ∷ a) (y ∷ b) ca cb =
    ground (arith, str_eq_iff x y ca.0 cb.0, same_lines_iff a b ca.1 cb.1)

module _ (k : Reader) (d : Delivers k) where
  abbrev Holds : Stored k.State → List Bytes → ℕ → Type 0
  Holds out lines used = (out.lines ≡ lines) × (out.storage_pos ≡ used)

  last_line_whole :
      (l r : Bytes) (s : k.State) (used : ℕ)
      → d.content s ≡ l ++ 10 ∷ r
      → Fits 4096 l
      → IsCString l
      → used + (length l + 1) ≤ 512 * 1024
      → Holds (last_line k s used) (l ∷ []) (used + length l + 1)
  unfolding last_line
  last_line_whole [] r s used e fits c room = absurd (fits.0 refl)
  last_line_whole (x ∷ l) r s used e fits c room =
      let (er, et, ec) = read_line_whole k d (x ∷ l) r 4096 s e fits.1 fits.2 in
      rw (er, et, last_line, is_stored-le (x ∷ l) used room, cstr-IsCString (x ∷ l) c) (refl, refl)

  last_line_end : (s : k.State) (used : ℕ) → d.content s ≡ [] → Holds (last_line k s used) [] used
  unfolding last_line
  last_line_end s used e = rw (read_line_end k d 4096 s e (omega arith), last_line) (refl, refl)

  -- Lines that are stored, up to one that the loop ends at.
  store_lines_until :
      (ls : List Bytes) (tail : Bytes) (room : ℕ) (s : k.State) (used : ℕ) (more : List Bytes)
      (total : ℕ)
      → ((t : k.State)
          → d.content t ≡ tail
          → ((read_line k t 4096).result ≡ pos 0)
            × Holds (last_line k (read_line k t 4096).rest (used + size ls)) more total)
      → d.content s ≡ unlines ls ++ tail
      → All (Fits 4096) ls
      → All IsCString ls
      → length ls < room
      → used + size ls ≤ 512 * 1024
      → Holds (store_lines k room s used) (ls ++ more) total
  unfolding store_lines
  store_lines_until ls tail zero s used more total stops e fits cs fuel fit = elim fuel [ ]
  store_lines_until [] tail (suc room) s used more total stops e fits cs fuel fit =
      let (er, out) = stops s e in
      rw (er, store_lines)
        (subst (λ u. Holds (last_line k (read_line k s 4096).rest u) more total) (omega arith) out)
  store_lines_until ([] ∷ ls) tail (suc room) s used more total stops e fits cs fuel fit =
      absurd (fits.0.0 refl)
  store_lines_until ((c ∷ l) ∷ ls) tail (suc room) s used more total stops e fits cs fuel fit =
      let whole : d.content s ≡ (c ∷ l) ++ 10 ∷ (unlines ls ++ tail) =
        e ∙ append_assoc (c ∷ l) (10 ∷ unlines ls) tail in
      let (er, et, ec) =
        read_line_whole k d (c ∷ l) (unlines ls ++ tail) 4096 s whole fits.0.1 fits.0.2 in
      let rest = (read_line k s 4096).rest in
      let used' : ℕ = used + length (c ∷ l) + 1 in
      let same : used + size ((c ∷ l) ∷ ls) ≡ used' + size ls = omega arith in
      let (lines, total_used) : Holds (store_lines k room rest used') (ls ++ more) total =
        store_lines_until ls tail room rest used' more total
          (λ t et'.
            let (r0, out) = stops t et' in
            (r0, subst (λ u. Holds (last_line k (read_line k t 4096).rest u) more total) same out))
          ec fits.1 cs.1 (omega arith) (omega arith) in
      rw (er, et, store_lines, is_stored-le (c ∷ l) used (omega arith), cstr-IsCString (c ∷ l) cs.0)
        (ap (◌∷◌ (c ∷ l)) lines, total_used)

  -- Strings, each with a newline, that fit the buffer and the storage.
  abbrev pub IsText : k.State → List Bytes → ℕ → Type 0
  IsText s ls used =
      (d.content s ≡ unlines ls)
      × All (Fits 4096) ls
      × All IsCString ls
      × (length ls < 8192)
      × (used + size ls ≤ 512 * 1024)

  store_lines-IsText :
      (s : k.State) (ls : List Bytes) (used : ℕ)
      → IsText s ls used
      → Holds (store_lines k 8192 s used) ls (used + size ls)
  store_lines-IsText s ls used (e, fits, cs, fuel, fit) =
      subst (λ t. Holds (store_lines k 8192 s used) t (used + size ls)) (append-nil ls)
        (store_lines_until ls [] 8192 s used [] (used + size ls)
          (λ t et. (
            read_line_end k d 4096 t et (omega arith),
            last_line_end (read_line k t 4096).rest (used + size ls)
                (read_line-past_end k d 4096 t et (omega arith)),
          ))
          (e ∙ sym (append-nil (unlines ls))) fits cs fuel fit)

  store_lines_blank :
      (s : k.State) (ls : List Bytes) (l hidden : Bytes) (used : ℕ)
      → d.content s ≡ unlines ls ++ 10 ∷ (l ++ 10 ∷ hidden)
      → All (Fits 4096) (l ∷ ls)
      → All IsCString (l ∷ ls)
      → length ls < 8192
      → used + size (l ∷ ls) ≤ 512 * 1024
      → Holds (store_lines k 8192 s used) (ls ++ l ∷ []) (used + size ls + length l + 1)
  store_lines_blank s ls l hidden used e fits cs fuel fit =
      store_lines_until ls (10 ∷ (l ++ 10 ∷ hidden)) 8192 s used (l ∷ [])
        (used + size ls + length l + 1) at_blank e fits.1 cs.1 fuel (omega arith)
    where
      at_blank :
          (t : k.State)
          → d.content t ≡ 10 ∷ (l ++ 10 ∷ hidden)
          → ((read_line k t 4096).result ≡ pos 0)
            × Holds
                (last_line k (read_line k t 4096).rest (used + size ls))
                (l ∷ [])
                (used + size ls + length l + 1)
      at_blank t et =
          let (er, ex, ec) = read_line_whole k d [] (l ++ 10 ∷ hidden) 4096 t et tt (omega arith) in
          (
            er,
            last_line_whole l hidden (read_line k t 4096).rest (used + size ls) ec fits.0 cs.0
                (omega arith),
          )

  -- Two files are the same, or the hunks lead from each to the other.
  abbrev pub Tells : ℕ × List Hunk → List Bytes → List Bytes → Type 0
  Tells out a b =
      ((out.0 ≡ 0) × (out.1 ≡ []) × (a ≡ b))
      ⊎ ((out.0 ≡ 1) × (a ≢ b) × (patch forward 0 out.1 a ≡ b) × (patch backward 0 out.1 b ≡ a))

  -- On two files of lines that are not empty, are strings and fit the buffer and the storage,
  -- diff_main returns 0 and prints nothing if the files are the same; otherwise it returns 1 and
  -- the hunks that it prints lead from each file to the other.
  pub diff_main-Tells :
      (fd_a fd_b : k.State) (a b : List Bytes)
      → IsText fd_a a 0
      → IsText fd_b b (size a)
      → Tells (diff_main k (some fd_a) (some fd_b)) a b
  unfolding diff_main
  diff_main-Tells fd_a fd_b a b ta tb =
      let (ea, pa) = store_lines-IsText fd_a a 0 ta in
      let start : (store_lines k 8192 fd_a 0).storage_pos ≡ size a = pa ∙ omega arith in
      let (eb, pb) = store_lines-IsText fd_b b (size a) tb in
      let same = same_lines_iff a b ta.2 tb.2 in
      rw (start, ea, eb)
        (elim (Bool-cases (same_lines a b)) [
          | inl e ↦ rw e (inl (refl, refl, same.0 e))
          | inr e ↦ rw e (
              let (forth, back) = patch-simple_diff a b ta.2 tb.2 in
              inr (refl, λ q. cc (same.1 q), forth, back))
        ])

  -- Behind a blank line diff reads one line more, and no further: where the lines up to there are
  -- the same, are not empty, are strings and fit the buffer and the storage, it returns 0, whatever
  -- follows in the two files.
  pub diff_main_blank :
      (fd_a fd_b : k.State) (ls : List Bytes) (l hidden_a hidden_b : Bytes)
      → d.content fd_a ≡ unlines ls ++ 10 ∷ (l ++ 10 ∷ hidden_a)
      → d.content fd_b ≡ unlines ls ++ 10 ∷ (l ++ 10 ∷ hidden_b)
      → All (Fits 4096) (l ∷ ls)
      → All IsCString (l ∷ ls)
      → length ls < 8192
      → 2 * size (l ∷ ls) ≤ 512 * 1024
      → diff_main k (some fd_a) (some fd_b) ≡ (0, [])
  unfolding diff_main
  diff_main_blank fd_a fd_b ls l hidden_a hidden_b ea eb fits cs fuel fit =
      let (la, pa) = store_lines_blank fd_a ls l hidden_a 0 ea fits cs fuel (omega arith) in
      let start : (store_lines k 8192 fd_a 0).storage_pos ≡ size (l ∷ ls) = pa ∙ omega arith in
      let (lb, pb) =
        store_lines_blank fd_b ls l hidden_b (size (l ∷ ls)) eb fits cs fuel (omega arith) in
      let all : All IsCString (ls ++ l ∷ []) = All-append IsCString ls (l ∷ []) cs.1 (cs.0, tt) in
      rw (start, la, lb, (same_lines_iff (ls ++ l ∷ []) (ls ++ l ∷ []) all all).1 refl)
