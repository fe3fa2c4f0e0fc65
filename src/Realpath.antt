-- ===== src/Realpath.antt =====
-- tools/realpath.c: `resolve_path`, with what the kernel knows of a path, and by hand.
pub mod Names
pub mod Normal
use qoot.Base.{
  ℕ, zero, suc, Bool, ◌&&◌, List, [], ◌∷◌, ◌++◌, Option, none, some, Bytes, codes, length, drop,
  get_or, ltb, reverse, ◌==◌, if◌then◌else◌,
}
use qoot.Sh.Words.{until}
use qoot.Str.{peek}

abbrev pub is_slash : ℕ → Bool
is_slash c = c == b'/'

unfoldable pub skip_slashes : Bytes → Bytes
skip_slashes [] = []
skip_slashes (c ∷ p) = if is_slash c then skip_slashes p else c ∷ p

-- `len == 1 && start[0] == '.'`, and the test of two dots.
unfoldable pub is_dot : Bytes → Bool
is_dot c = length c == 1 && get_or c 0 0 == b'.'

unfoldable pub is_dotdot : Bytes → Bool
is_dotdot c = length c == 2 && get_or c 0 0 == b'.' && get_or c 1 0 == b'.'

-- One round: the array, its last component first. It is `none` where a name is stored behind the
-- array of 256, which the code does not test; what it does from then on is not determined.
unfoldable pub push : Bytes → List Bytes → Option (List Bytes)
unfolding is_dot is_dotdot
push c components =
    if is_dot c
    then some components
    else if is_dotdot c
    then some (drop 1 components)
    else if ltb (length components) 256
    then some (c ∷ components)
    else none

-- The loop at `p`; every round passes over a component.
unfoldable pub components_loop : ℕ → Bytes → List Bytes → Option (List Bytes)
unfolding skip_slashes push
components_loop zero p components = some components
components_loop (suc f) p components =
    let start = skip_slashes p in
    let c = until is_slash start in
    let rest = drop (length c) start in
    let later = elim (push c components) as (λ _. Option (List Bytes)) [
      | none ↦ none
      | some pushed ↦ components_loop f rest pushed
    ] in
    if peek start == 0 then some components else later

-- The components with a slash before each of them.
abbrev pub slashed : List Bytes → Bytes
slashed [] = []
slashed (c ∷ components) = b'/' ∷ (c ++ slashed components)

-- What `out` holds at the end.
abbrev pub out_of : List Bytes → Bytes
out_of [] = codes "/"
out_of (c ∷ components) = slashed (c ∷ components)

-- What is in `out`; it is `none` where one of the arrays `tmp`, `components` and `out` is overrun.
unfoldable pub canonical : Bytes → Option Bytes
unfolding components_loop
canonical tmp =
    let components = components_loop (length tmp) tmp [] in
    elim components as (λ _. Option Bytes) [
      | none ↦ none
      | some cs ↦
          let out = out_of (reverse cs) in
          if ltb (length tmp) 4096 && ltb (length out) 4096 then some out else none
    ]

-- `link` is what `sys_readlink` gives for the opened file, `none` if one of the calls fails.
unfoldable pub resolve_path : Option Bytes → Bytes → Bytes → Option Bytes
unfolding canonical
resolve_path (some link) cwd path = some link
resolve_path none cwd path =
    canonical (if is_slash (peek path) then path else cwd ++ (codes "/" ++ path))
