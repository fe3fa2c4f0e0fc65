-- ===== src/Sh/Lines/Bounds.antt =====
-- tools/sh.c: the bounds of the tables and of what a process is given.
use qoot.Base.{
  ◌+◌, ◌<◌, ◌≤◌, ◌≡◌, refl, ◌⊎◌, inl, inr, Bool, true, false, List, [], ◌∷◌, Option, some, Bytes,
  length, take, ltb, All, arith, Bool-cases, Option-cases,
}
use qoot.Sh.Commands.{Process, Kernel, Event, started, State, Run, export_all}
use qoot.Sh.Environment.{set_env}
use qoot.Sh.Environment.Replaced.{length-set_env}
use qoot.Sh.Lines.{Child, ready, absent, faulty}
use qoot.Sh.Path.{Lookup, found, missing, overrun}
use qoot.Sh.Segments.{scan}
use qoot.Str.{str_chr}

-- The tables are within their bounds.
pub record IsState (st : State) : Type 0 where
  pub entries : length st.env ≤ 255
  pub rows : st.env_idx ≤ 64

-- What holds of a process that is started.
pub record IsRunnable (k : Kernel) (p : Process) : Type 0 where
  pub executable_path : k.executable p.path ≡ true
  pub some_args : 0 < length p.args
  pub few_args : length p.args ≤ 63
  pub entries : length p.env ≤ 255

abbrev pub IsAllowedEvent : Kernel → Event → Type 0
IsAllowedEvent k (started p) = IsRunnable k p
IsAllowedEvent k _ = Unit

pub record IsSound (k : Kernel) (r : Run) : Type 0 where
  pub state : IsState r.state
  pub events : All (IsAllowedEvent k) r.events

pub Lookup-cases : (l : Lookup) → (l ≡ missing) ⊎ ((l ≡ overrun) ⊎ ((p : Bytes) × (l ≡ found p)))
Lookup-cases missing = inl refl
Lookup-cases overrun = inr (inl refl)
Lookup-cases (found p) = inr (inr (p, refl))

pub Child-cases : (c : Child) → (c ≡ absent) ⊎ ((c ≡ faulty) ⊎ ((p : Process) × (c ≡ ready p)))
Child-cases absent = inl refl
Child-cases faulty = inr (inl refl)
Child-cases (ready p) = inr (inr (p, refl))

pub ready_injective : {p q : Process} → ready p ≡ ready q → p ≡ q
ready_injective h = cc

pub export_all-IsState :
    (args : List Bytes) (st : State) → IsState st → IsState (export_all args st)
unfolding export_all
export_all-IsState [] st h = h
export_all-IsState (a ∷ args) st h = elim (Option-cases (str_chr a b'=')) [
  | inl plain ↦ rw plain (export_all-IsState args st h)
  | inr (eq, e) ↦ elim (Bool-cases (ltb st.env_idx 64)) [
    | inl room ↦
        rw (e, room)
          (export_all-IsState args
            (record { env = set_env (take 255 a) st.env; env_idx = st.env_idx + 1 })
            (record {
              entries = length-set_env (take 255 a) st.env h.entries;
              rows = ground arith;
            }))
    | inr full ↦ rw (e, full) (export_all-IsState args st h)
  ]
]

-- The words of a command are no more than the arguments that are scanned.
pub length-scan :
    (args : List Bytes) (infile outfile : Option Bytes) (append : Bool)
    → length (scan args infile outfile append).words ≤ length args
unfolding scan
length-scan [] infile outfile append = omega arith
length-scan (a ∷ []) infile outfile append = omega arith
length-scan (a ∷ b ∷ args) infile outfile append = ground (
  arith,
  length-scan args infile (some b) false,
  length-scan args infile (some b) true,
  length-scan args (some b) outfile append,
  length-scan (b ∷ args) infile outfile append,
)
