-- ===== src/Tests/Differences.antt =====
-- tools/diff.c: runs and witnesses.
use mathlib.Core.List.{cons-ne-nil}
use qoot.Base.{◌≡◌, refl, List, [], ◌∷◌, some, Bytes, codes, map, arith}
use qoot.Diff.{diff_main, simple_diff, hunk_text}
use qoot.Diff.Files.{diff_main-Tells, diff_main_blank, Tells, IsText}
use qoot.Io.Lines.{unlines}
use qoot.Str.{str_eq}
use qoot.Tests.Disk.{disk, disk_delivers}

abbrev old_lines : List Bytes
old_lines = codes "a" ∷ codes "b" ∷ codes "c" ∷ []

abbrev new_lines : List Bytes
new_lines = codes "x" ∷ codes "b" ∷ codes "d" ∷ codes "e" ∷ codes "c" ∷ []

two_hunks :
    map hunk_text (simple_diff old_lines new_lines)
    ≡ codes "1c1\n< a\n---\n> x\n" ∷ codes "2a3,4\n> d\n> e\n" ∷ []
unfolding simple_diff hunk_text str_eq
two_hunks = refl

old_lines-IsText : IsText disk disk_delivers (unlines old_lines) old_lines 0
old_lines-IsText = (
  refl,
  (
    (cons-ne-nil _ _, omega arith, omega arith),
    (
      (cons-ne-nil _ _, omega arith, omega arith),
      ((cons-ne-nil _ _, omega arith, omega arith), tt),
    ),
  ),
  omega arith,
  omega arith,
  omega arith,
)

new_lines-IsText : IsText disk disk_delivers (unlines new_lines) new_lines 6
new_lines-IsText = (
  refl,
  (
    (cons-ne-nil _ _, omega arith, omega arith),
    (
      (cons-ne-nil _ _, omega arith, omega arith),
      (
        (cons-ne-nil _ _, omega arith, omega arith),
        (
          (cons-ne-nil _ _, omega arith, omega arith),
          ((cons-ne-nil _ _, omega arith, omega arith), tt),
        ),
      ),
    ),
  ),
  omega arith,
  omega arith,
  omega arith,
)

diff_main-Tells_example :
    Tells disk disk_delivers
      (diff_main disk (some (unlines old_lines)) (some (unlines new_lines)))
      old_lines
      new_lines
diff_main-Tells_example =
    diff_main-Tells disk disk_delivers (unlines old_lines) (unlines new_lines) old_lines new_lines
      old_lines-IsText new_lines-IsText

-- The files differ behind the blank line.
diff_main_blank_example :
    diff_main disk (some (codes "a\n\nb\nc\n")) (some (codes "a\n\nb\nd\n")) ≡ (0, [])
diff_main_blank_example =
    diff_main_blank disk disk_delivers (codes "a\n\nb\nc\n") (codes "a\n\nb\nd\n") (codes "a" ∷ [])
      (codes "b") (codes "c\n") (codes "d\n") refl refl
      (
        (cons-ne-nil _ _, omega arith, omega arith),
        ((cons-ne-nil _ _, omega arith, omega arith), tt),
      )
      (omega arith) (omega arith) (omega arith)
