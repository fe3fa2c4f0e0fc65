-- ===== src/Sh/Lines.antt =====
-- tools/sh.c: `execute_line`, a line with its pipes and redirects. The forks and pipes of such a
-- line are taken to succeed, and no child of an earlier line to be left.
pub mod Bounds
pub mod Sound
use qoot.Base.{
  ℕ, Bool, true, false, List, [], ◌∷◌, ◌++◌, Option, none, some, Bytes, get_or, not, ◌==◌,
  if◌then◌else◌,
}
use qoot.Sh.Environment.{Environment}
use qoot.Sh.Expand.{expand_vars}
use qoot.Sh.Path.{Lookup, found, missing, overrun, find_in_path}
use qoot.Sh.Segments.{segments, Redirects, redirects}
use qoot.Sh.Words.{parse_args}
use qoot.Sh.Commands.{
  Input, own_input, in_pipe, in_file, Output, own_output, out_pipe, out_file, Process, Kernel,
  Event, opened, started, Status, returned, undefined, State, Run, wait_status, execute_cmd,
}

unfoldable pub line_args : Environment → Bytes → List Bytes
line_args env segment = parse_args (expand_vars env segment 4096)

-- A child for a command: `faulty` where the code goes on with a null pointer or overruns the path.
pub data Child : Type 0 where
  ready : Process → Child
  absent faulty : Child

unfoldable pub child : Kernel → Environment → Input → Output → List Bytes → Child
child k env input output [] = faulty
child k env input output (cmd ∷ args) = elim (find_in_path k.executable env cmd) as (λ _. Child) [
  | missing ↦ absent
  | overrun ↦ faulty
  | found path ↦
      ready (record { path = path; args = cmd ∷ args; env = env; input = input; output = output })
]

-- The child of a command with redirects, from `open` of the input on. It dies of the null pointer
-- where there is no command.
unfoldable pub redirected : Kernel → State → Input → Output → List Event → List Bytes → Run
redirected k st input output events [] = record { state = st; events = events; status = returned 1 }
redirected k st input output events (cmd ∷ args) =
    elim (child k st.env input output (cmd ∷ args)) as (λ _. Run) [
      | faulty ↦ record { state = st; events = events; status = undefined }
      | absent ↦ record { state = st; events = events; status = returned 127 }
      | ready p ↦ record {
        state = st;
        events = events ++ started p ∷ [];
        status = returned (wait_status (k.run p));
      }
    ]

unfoldable pub redirect_output : Kernel → State → Input → Option Bytes → Bool → List Bytes → Run
redirect_output k st input none append args = redirected k st input own_output [] args
redirect_output k st input (some file) append args =
    if k.writable file
    then redirected k st input (out_file file append) (opened file append ∷ []) args
    else record { state = st; events = []; status = returned 1 }

-- `if (infile || outfile) { ... } return execute_cmd(args, new_argc);`
unfoldable pub run_command : Kernel → State → Option Bytes → Option Bytes → Bool → List Bytes → Run
run_command k st none none append args = execute_cmd k st args
run_command k st none (some file) append args =
    redirect_output k st own_input (some file) append args
run_command k st (some file) outfile append args =
    if k.readable file
    then redirect_output k st (in_file file) outfile append args
    else record { state = st; events = []; status = returned 1 }

unfoldable pub stage_input : List Process → Input
stage_input [] = own_input
stage_input (p ∷ earlier) = in_pipe

-- `while (sys_wait4(-1, &status, 0, NULL) > 0);`: each child that is given overwrites `status`.
unfoldable pub reap_loop : Kernel → Option ℕ → List Process → Option ℕ
reap_loop k status [] = status
reap_loop k status (q ∷ left) = reap_loop k (k.run q) left

-- What is in `status` behind the two waits for the children of a pipeline.
unfoldable pub pipeline_status : Kernel → List Process → Process → Option ℕ
unfolding reap_loop
pipeline_status k earlier p = reap_loop k (k.run p) (k.reaped earlier)

-- The loop over the segments of a pipeline, behind the children that have been started.
unfoldable pub run_stages : Kernel → State → List Process → List Bytes → Run
run_stages k st earlier [] = record { state = st; events = []; status = returned 0 }
run_stages k st earlier (segment ∷ []) =
    elim (child k st.env (stage_input earlier) own_output (line_args st.env segment))
      as (λ _. Run) [
        | faulty ↦ record { state = st; events = []; status = undefined }
        | absent ↦ record { state = st; events = []; status = returned 127 }
        | ready p ↦ record {
          state = st;
          events = started p ∷ [];
          status = returned (wait_status (pipeline_status k earlier p));
        }
      ]
run_stages k st earlier (segment ∷ next ∷ later) =
    elim (child k st.env (stage_input earlier) out_pipe (line_args st.env segment)) as (λ _. Run) [
      | faulty ↦ record { state = st; events = []; status = undefined }
      | absent ↦ record { state = st; events = []; status = returned 127 }
      | ready p ↦
          let rest = run_stages k st (earlier ++ p ∷ []) (next ∷ later) in
          record { state = rest.state; events = started p ∷ rest.events; status = rest.status }
    ]

unfoldable pub execute_segments : Kernel → State → List Bytes → Run
execute_segments k st [] = run_stages k st [] []
execute_segments k st (segment ∷ []) =
    let r = redirects (line_args st.env segment) in
    run_command k st r.infile r.outfile r.append r.words
execute_segments k st (segment ∷ next ∷ later) = run_stages k st [] (segment ∷ next ∷ later)

unfoldable pub execute_line : Kernel → State → Bytes → Run
execute_line k st line = execute_segments k st (segments line)
