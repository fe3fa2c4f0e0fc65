-- ===== src/Sh/Commands.antt =====
-- tools/sh.c: `execute_cmd`, one command that reads and writes what the shell does. The messages
-- are not modelled.
pub mod Export
use qoot.Base.{
  ℕ, zero, suc, ◌+◌, ◌-◌, Bool, true, false, List, [], ◌∷◌, Option, none, some, Bytes, codes,
  length, take, ltb, ◌==◌, if◌then◌else◌,
}
use qoot.Sh.Environment.{Environment, get_env, set_env}
use qoot.Sh.Path.{Lookup, found, missing, overrun, find_in_path}
use qoot.Str.{str_chr, str_eq}
use qoot.Str.Parse.{str_to_uint}

-- Where a process reads from and where it writes to.
pub data Input : Type 0 where
  own_input in_pipe : Input
  in_file : Bytes → Input

pub data Output : Type 0 where
  own_output out_pipe : Output
  out_file : Bytes → Bool → Output

-- What `sys_execve` is called with in a child, and the child's descriptors 0 and 1.
pub record Process : Type 0 where
  pub path : Bytes
  pub args : List Bytes
  pub env : Environment
  pub input : Input
  pub output : Output

-- What the kernel answers while a line runs: `sys_access(path, 1) == 0`, whether `sys_chdir`,
-- `sys_fork` and `sys_open` for reading and for writing succeed, and the exit status of a child,
-- `none` if it ends by a signal. `reaped` is the order in which `sys_wait4(-1)` gives the children
-- that are left, and `stale` is what an array for a line holds before it is written.
pub record Kernel : Type 0 where
  pub executable : Bytes → Bool
  pub chdir_works : Bytes → Bool
  pub forks : Bool
  pub readable : Bytes → Bool
  pub writable : Bytes → Bool
  pub run : Process → Option ℕ
  pub reaped : List Process → List Process
  pub stale : Bytes

pub data Event : Type 0 where
  changed_dir : Bytes → Event
  asked_dir : Event
  opened : Bytes → Bool → Event
  started : Process → Event

-- `undefined`: the code goes on with a null pointer or a path that does not fit its array.
pub data Status : Type 0 where
  returned exited : ℕ → Status
  undefined : Status

-- The table of the environment and `env_idx`, the rows of `env_storage` that are taken.
pub record State : Type 0 where
  pub env : Environment
  pub env_idx : ℕ

-- The state behind a line, what was done, and how it ended.
pub record Run : Type 0 where
  pub state : State
  pub events : List Event
  pub status : Status

-- `WIFEXITED(status) ? WEXITSTATUS(status) : 1`
unfoldable pub wait_status : Option ℕ → ℕ
wait_status none = 1
wait_status (some n) = n

-- The arguments of `export`; a row of `env_storage` has room for 255 bytes.
unfoldable pub export_all : List Bytes → State → State
export_all [] st = st
export_all (a ∷ args) st = export_all args (elim (str_chr a b'=') as (λ _. State) [
  | none ↦ st
  | some _ ↦
      if ltb st.env_idx 64
      then record { env = set_env (take 255 a) st.env; env_idx = st.env_idx + 1 }
      else st
])

-- The directory that `cd` changes to.
unfoldable pub cd_dir : Environment → List Bytes → Bytes
cd_dir env (dir ∷ _) = dir
cd_dir env [] = elim (get_env env (codes "HOME")) as (λ _. Bytes) [
  | some dir ↦ dir
  | none ↦ codes "/"
]

unfoldable pub exit_code : List Bytes → ℕ
exit_code [] = 0
exit_code (a ∷ _) = str_to_uint a

-- A command that is no builtin.
unfoldable pub external : Kernel → State → Bytes → List Bytes → Run
external k st cmd args = elim (find_in_path k.executable st.env cmd) as (λ _. Run) [
  | missing ↦ record { state = st; events = []; status = returned 127 }
  | overrun ↦ record { state = st; events = []; status = undefined }
  | found path ↦
      let child : Process = record {
        path = path;
        args = cmd ∷ args;
        env = st.env;
        input = own_input;
        output = own_output;
      } in
      if k.forks
      then record {
        state = st;
        events = started child ∷ [];
        status = returned (wait_status (k.run child));
      }
      else record { state = st; events = []; status = returned 1 }
]

unfoldable pub execute_cmd : Kernel → State → List Bytes → Run
execute_cmd k st [] = record { state = st; events = []; status = returned 0 }
execute_cmd k st (cmd ∷ args) =
    if str_eq cmd (codes "cd")
    then (let dir = cd_dir st.env args in
        if k.chdir_works dir
        then record { state = st; events = changed_dir dir ∷ []; status = returned 0 }
        else record { state = st; events = []; status = returned 1 })
    else if str_eq cmd (codes "exit")
    then record { state = st; events = []; status = exited (exit_code args) }
    else if str_eq cmd (codes "export")
    then record { state = export_all args st; events = []; status = returned 0 }
    else if str_eq cmd (codes "pwd")
    then record { state = st; events = asked_dir ∷ []; status = returned 0 }
    else external k st cmd args
