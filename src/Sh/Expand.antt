-- ===== src/Sh/Expand.antt =====
-- tools/sh.c: `expand_vars`. A variable's name is cut to 255 bytes.
pub mod Bound
pub mod Variables
use qoot.Base.{
  ℕ, zero, suc, ◌-◌, Bool, true, false, ◌&&◌, ◌||◌, not, List, [], ◌∷◌, ◌++◌, Option, none, some,
  Bytes, length, take, drop, ◌==◌, if◌then◌else◌,
}
use qoot.Sh.Environment.{Environment, get_env}
use qoot.Str.{peek, is_alnum}

-- The loops that copy a name: while the test holds, up to `max` bytes.
unfoldable pub name_while : (ℕ → Bool) → ℕ → Bytes → Bytes
name_while test zero src = []
name_while test (suc max) [] = []
name_while test (suc max) (c ∷ src) = if test c then c ∷ name_while test max src else []

-- The name behind a `$`, and what is left of the text.
unfoldable pub var_name : Bytes → Bytes × Bytes
unfolding name_while is_alnum
var_name src =
    if peek src == b'{'
    then (let inner = drop 1 src in
        let name = name_while (λ c. not (c == b'}')) 255 inner in
        let after = drop (length name) inner in
        (name, if peek after == b'}' then drop 1 after else after))
    else if peek src == b'?'
    then (b'?' ∷ [], drop 1 src)
    else (let name = name_while (λ c. is_alnum c || c == b'_') 255 src in
        (name, drop (length name) src))

-- What is stored for a variable.
unfoldable pub value_of : Environment → Bytes → Bytes
unfolding get_env
value_of env name = elim (get_env env name) as (λ _. Bytes) [ none ↦ [] | some val ↦ val ]

-- Bytes that are stored before the rest.
abbrev pub stored : Bytes → Option Bytes → Option Bytes
stored text none = none
stored text (some rest) = some (text ++ rest)

-- The loop, on the rest of the text and the room that is left, for at most `f` rounds: `none` where
-- it has not ended by then.
unfoldable pub expand_loop : Environment → ℕ → Bytes → ℕ → Option Bytes
unfolding var_name value_of
expand_loop env f [] room = some []
expand_loop env f (c ∷ src) zero = some []
expand_loop env zero (c ∷ src) (suc room) = none
expand_loop env (suc f) (c ∷ src) (suc room) =
    let (name, after) = var_name src in
    let val = take (suc room) (value_of env name) in
    let expanded = stored val (expand_loop env f after (suc room - length val)) in
    let copied = stored (c ∷ []) (expand_loop env f src room) in
    if c == b'$' && not (peek src == 0) then expanded else copied

-- What `dst` holds behind the loop.
abbrev pub text_of : Option Bytes → Bytes
text_of none = []
text_of (some text) = text

-- As many rounds as the text has bytes are enough, which Sh.Expand.Bound shows.
unfoldable pub expand_vars : Environment → Bytes → ℕ → Bytes
unfolding expand_loop
expand_vars env src dst_sz = text_of (expand_loop env (length src) src (dst_sz - 1))
