-- ===== src/Sh/Environment.antt =====
-- tools/sh.c: the table of the environment. The strings that its pointers name never change: each
-- exported one has an array of its own.
pub mod Names
pub mod Replaced
pub mod Update
use qoot.Base.{
  ℕ, ◌+◌, ◌-◌, Bool, true, false, ◌&&◌, List, [], ◌∷◌, ◌++◌, Option, none, some, Bytes, length,
  take, drop, ltb, ◌==◌, if◌then◌else◌,
}
use qoot.Str.{peek, str_len, str_ncmp, str_chr, is_zero}

-- The entries below `env_count`; the table has room for 255 of them and the NULL behind them.
abbrev pub Environment : Type 0
Environment = List Bytes

unfoldable pub init_env : List Bytes → Environment
init_env envp = take 255 envp

-- `str_ncmp(entry, name, n) == 0 && entry[n] == '='`, where `name` has at least `n` bytes.
unfoldable pub names : Bytes → Bytes → ℕ → Bool
unfolding str_ncmp
names entry name n = is_zero (str_ncmp entry name n) && peek (drop n entry) == b'='

unfoldable pub get_env : Environment → Bytes → Option Bytes
unfolding names str_len
get_env [] name = none
get_env (entry ∷ env) name =
    let nlen = str_len name in
    if names entry name nlen then some (drop (nlen + 1) entry) else get_env env name

-- The loop over the entries: the table with the entry of the same name replaced, if there is one.
unfoldable pub replace_entry : Bytes → ℕ → Environment → Option Environment
unfolding names
replace_entry entry klen [] = none
replace_entry entry klen (old ∷ env) =
    let later = replace_entry entry klen env in
    if names old entry klen
    then some (entry ∷ env)
    else elim later as (λ _. Option Environment) [ none ↦ none | some env' ↦ some (old ∷ env') ]

unfoldable pub set_env : Bytes → Environment → Environment
set_env entry env = elim (str_chr entry b'=') as (λ _. Environment) [
  | none ↦ env
  | some eq ↦ elim (replace_entry entry (str_len entry - str_len eq) env) as (λ _. Environment) [
    | some env' ↦ env'
    | none ↦ if ltb (length env) 255 then env ++ entry ∷ [] else env
  ]
]
