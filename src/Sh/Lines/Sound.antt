-- ===== src/Sh/Lines/Sound.antt =====
-- tools/sh.c: what every line keeps, and what every process that it starts is given.
use qoot.Base.{
  ◌≤◌, ◌≡◌, subst, inl, inr, Bool, true, false, List, [], ◌∷◌, ◌++◌, Option, none, some, Bytes,
  length, All, All-append, arith, if◌then◌else◌, codes,
}
use qoot.Sh.Commands.{
  Input, Output, own_input, own_output, out_pipe, in_file, out_file, Process, Kernel, Event,
  started, opened, State, Run, external, execute_cmd, cd_dir,
}
use qoot.Sh.Lines.{
  ready, child, line_args, redirected, redirect_output, run_command, run_stages, stage_input,
  execute_segments, execute_line,
}
use qoot.Sh.Path.{found, find_in_path}
use qoot.Sh.Path.First.{find_in_path-IsFound}
use qoot.Sh.Segments.{segments, redirects}
use qoot.Sh.Expand.{expand_vars}
use qoot.Sh.Words.{parse_args}
use qoot.Sh.Words.Loop.{length-parse_args}
use qoot.Str.{str_eq}
use qoot.Sh.Lines.Bounds.{
  IsState, IsRunnable, IsAllowedEvent, IsSound, Lookup-cases, Child-cases, ready_injective,
  export_all-IsState, length-scan,
}

module _ (k : Kernel) (st : State) (h : IsState st) where
  runnable :
      (cmd : Bytes) (args : List Bytes) (path : Bytes) (input : Input) (output : Output)
      → length (cmd ∷ args) ≤ 63
      → find_in_path k.executable st.env cmd ≡ found path
      → IsRunnable k
          (record { path = path; args = cmd ∷ args; env = st.env; input = input; output = output })
  runnable cmd args path input output few e =
      let f = find_in_path-IsFound k.executable cmd st.env {p = path} e in
      record {
        executable_path = f.executable_path;
        some_args = omega arith;
        few_args = few;
        entries = h.entries;
      }

  if_either : (t : Bool) {r r' : Run} → IsSound k r → IsSound k r' → IsSound k (if t then r else r')
  if_either true a b = a
  if_either false a b = b

  external-IsSound :
      (cmd : Bytes) (args : List Bytes)
      → length (cmd ∷ args) ≤ 63
      → IsSound k (external k st cmd args)
  unfolding external
  external-IsSound cmd args few = elim (Lookup-cases (find_in_path k.executable st.env cmd)) [
    | inl e ↦ rw (e, external) (record { state = h; events = tt })
    | inr (inl e) ↦ rw (e, external) (record { state = h; events = tt })
    | inr (inr (path, e)) ↦
        rw (e, external)
          (if_either k.forks
            (record { state = h; events = (runnable cmd args path own_input own_output few e, tt) })
            (record { state = h; events = tt }))
  ]

  execute_cmd-IsSound : (args : List Bytes) → length args ≤ 63 → IsSound k (execute_cmd k st args)
  unfolding execute_cmd
  execute_cmd-IsSound [] few = record { state = h; events = tt }
  execute_cmd-IsSound (cmd ∷ args) few =
      if_either (str_eq cmd (codes "cd"))
        (if_either (k.chdir_works (cd_dir st.env args)) (record { state = h; events = (tt, tt) })
          (record { state = h; events = tt }))
        (if_either (str_eq cmd (codes "exit")) (record { state = h; events = tt })
          (if_either (str_eq cmd (codes "export"))
            (record { state = export_all-IsState args st h; events = tt })
            (if_either (str_eq cmd (codes "pwd")) (record { state = h; events = (tt, tt) })
              (external-IsSound cmd args few))))

  child-IsRunnable :
      (input : Input) (output : Output) (args : List Bytes) {p : Process}
      → length args ≤ 63
      → child k st.env input output args ≡ ready p
      → IsRunnable k p
  unfolding child
  child-IsRunnable input output [] few e = cc
  child-IsRunnable input output (cmd ∷ args) {p} few e =
      elim (Lookup-cases (find_in_path k.executable st.env cmd)) [
        | inl f ↦ absurd (let g = rw (f, child) at e in cc)
        | inr (inl f) ↦ absurd (let g = rw (f, child) at e in cc)
        | inr (inr (path, f)) ↦
            subst (IsRunnable k) (ready_injective (rw (f, child) at e))
              (runnable cmd args path input output few f)
      ]

  redirected-IsSound :
      (input : Input) (output : Output) (events : List Event) (args : List Bytes)
      → All (IsAllowedEvent k) events
      → length args ≤ 63
      → IsSound k (redirected k st input output events args)
  unfolding redirected
  redirected-IsSound input output events [] before few = record { state = h; events = before }
  redirected-IsSound input output events (cmd ∷ args) before few =
      elim (Child-cases (child k st.env input output (cmd ∷ args))) [
        | inl e ↦ rw (e, redirected) (record { state = h; events = before })
        | inr (inl e) ↦ rw (e, redirected) (record { state = h; events = before })
        | inr (inr (p, e)) ↦
            rw (e, redirected)
              (record {
                state = h;
                events =
                    All-append (IsAllowedEvent k) events (started p ∷ []) before
                      (child-IsRunnable input output (cmd ∷ args) {p = p} few e, tt);
              })
      ]

  redirect_output-IsSound :
      (input : Input) (outfile : Option Bytes) (append : Bool) (args : List Bytes)
      → length args ≤ 63
      → IsSound k (redirect_output k st input outfile append args)
  unfolding redirect_output
  redirect_output-IsSound input none append args few =
      redirected-IsSound input own_output [] args tt few
  redirect_output-IsSound input (some file) append args few =
      if_either (k.writable file)
        (redirected-IsSound input (out_file file append) (opened file append ∷ []) args (tt, tt)
          few)
        (record { state = h; events = tt })

  run_command-IsSound :
      (infile outfile : Option Bytes) (append : Bool) (args : List Bytes)
      → length args ≤ 63
      → IsSound k (run_command k st infile outfile append args)
  unfolding run_command
  run_command-IsSound none none append args few = execute_cmd-IsSound args few
  run_command-IsSound none (some file) append args few =
      redirect_output-IsSound own_input (some file) append args few
  run_command-IsSound (some file) outfile append args few =
      if_either (k.readable file) (redirect_output-IsSound (in_file file) outfile append args few)
        (record { state = h; events = tt })

  stage_child :
      (input : Input) (output : Output) (segment : Bytes) {p : Process}
      → child k st.env input output (line_args st.env segment) ≡ ready p
      → IsRunnable k p
  unfolding line_args
  stage_child input output segment {p} e =
      child-IsRunnable input output (line_args st.env segment) {p = p}
        (length-parse_args (expand_vars st.env segment 4096)) e

  run_stages-IsSound :
      (earlier : List Process) (segments : List Bytes)
      → IsSound k (run_stages k st earlier segments)
  unfolding run_stages
  run_stages-IsSound earlier [] = record { state = h; events = tt }
  run_stages-IsSound earlier (segment ∷ []) =
      elim (Child-cases
        (child k st.env (stage_input earlier) own_output (line_args st.env segment))) [
          | inl e ↦ rw (e, run_stages) (record { state = h; events = tt })
          | inr (inl e) ↦ rw (e, run_stages) (record { state = h; events = tt })
          | inr (inr (p, e)) ↦
              rw (e, run_stages)
                (record {
                  state = h;
                  events = (stage_child (stage_input earlier) own_output segment {p = p} e, tt);
                })
        ]
  run_stages-IsSound earlier (segment ∷ next ∷ later) =
      elim (Child-cases
        (child k st.env (stage_input earlier) out_pipe (line_args st.env segment))) [
          | inl e ↦ rw (e, run_stages) (record { state = h; events = tt })
          | inr (inl e) ↦ rw (e, run_stages) (record { state = h; events = tt })
          | inr (inr (p, e)) ↦
              let rest = run_stages-IsSound (earlier ++ p ∷ []) (next ∷ later) in
              rw (e, run_stages)
                (record {
                  state = rest.state;
                  events =
                      (stage_child (stage_input earlier) out_pipe segment {p = p} e, rest.events);
                })
        ]

  execute_segments-IsSound : (segments : List Bytes) → IsSound k (execute_segments k st segments)
  unfolding execute_segments line_args redirects
  execute_segments-IsSound [] = run_stages-IsSound [] []
  execute_segments-IsSound (segment ∷ []) =
      let args = parse_args (expand_vars st.env segment 4096) in
      let r = redirects args in
      run_command-IsSound r.infile r.outfile r.append r.words (
        omega (
          arith,
          length-scan args none none false,
          length-parse_args (expand_vars st.env segment 4096),
        ))
  execute_segments-IsSound (segment ∷ next ∷ later) = run_stages-IsSound [] (segment ∷ next ∷ later)

  -- A line leaves tables that are within their bounds so, and every process that it starts has an
  -- executable path, between 1 and 63 words, and at most 255 variables. Of a line that goes on with a
  -- null pointer, or with a path written over the end of its array, this is said up to there.
  pub execute_line-IsSound : (line : Bytes) → IsSound k (execute_line k st line)
  unfolding execute_line
  execute_line-IsSound line = execute_segments-IsSound (segments line)
