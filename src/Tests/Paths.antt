-- ===== src/Tests/Paths.antt =====
-- tools/realpath.c: runs and witnesses.
use mathlib.Core.List.{cons-ne-nil}
use qoot.Base.{◌≡◌, refl, none, some, ◌<◌, length, [], ◌∷◌, reverse, map, codes, arith}
use qoot.Realpath.{resolve_path, canonical, out_of, slashed, is_dot, is_dotdot}
use qoot.Realpath.Normal.{
  resolve_path-IsCanonical, resolve_path-followed, IsCanonical, Item, name, here, up, item_text,
  followed,
}
use qoot.Sh.Words.{until}

by_hand : resolve_path none (codes "/home/q") (codes "./a//../b/") ≡ some (codes "/home/q/b")
unfolding resolve_path until
by_hand = refl

above_root : canonical (codes "/../..") ≡ some (codes "/")
unfolding canonical until
above_root = refl

resolve_path-IsCanonical_example : IsCanonical (codes "/home/q/b")
resolve_path-IsCanonical_example =
    resolve_path-IsCanonical (codes "/home/q") (codes "./a//../b/") (omega arith) (omega arith)
      by_hand

abbrev usr : Item
unfolding is_dot is_dotdot
usr = name (codes "usr") (cons-ne-nil _ _, omega arith, refl, refl)

short : length (out_of (reverse (followed [] (usr ∷ here ∷ up ∷ usr ∷ [])))) < 4096
unfolding followed usr
short = omega arith

resolve_path-followed_example :
    resolve_path none [] (slashed (map item_text (usr ∷ here ∷ up ∷ usr ∷ [])))
    ≡ some (out_of (reverse (followed [] (usr ∷ here ∷ up ∷ usr ∷ []))))
unfolding usr
resolve_path-followed_example =
    resolve_path-followed [] usr (here ∷ up ∷ usr ∷ []) (omega arith) (omega arith) short
