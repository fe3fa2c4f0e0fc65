-- ===== src/Sh/Sessions/Kept.antt =====
-- tools/sh.c: the tables stay within their bounds for as long as the shell runs.
use qoot.Base.{
  ℕ, Bool, true, false, ◌||◌, List, [], ◌∷◌, ◌++◌, Option, none, some, Bytes, map, arith, ◌==◌,
  if◌then◌else◌, length, length-take, codes,
}
use qoot.Io.{Reader, read_lines}
use qoot.Sh.Commands.{Kernel, Event, Status, returned, exited, undefined, State, Run}
use qoot.Sh.Environment.{init_env}
use qoot.Sh.Lines.{execute_line}
use qoot.Sh.Lines.Bounds.{IsState}
use qoot.Sh.Lines.Sound.{execute_line-IsSound}
use qoot.Sh.Sessions.{
  after_line, copied_line, run_lines, run_script, stripped, interactive, sh_main,
}
use qoot.Sh.Words.{skip_blanks, pieces}
use qoot.Str.{peek, cstr, str_eq}

if_either :
    (t : Bool) (r r' : Run)
    → IsState r.state
    → IsState r'.state
    → IsState (if t then r else r').state
if_either true r r' a b = a
if_either false r r' a b = b

abbrev first_state : List Bytes → State
first_state envp = record { env = init_env envp; env_idx = 0 }

first_state-IsState : (envp : List Bytes) → IsState (first_state envp)
unfolding init_env
first_state-IsState envp = record {
  entries = omega (arith, length-take 255 envp);
  rows = omega arith;
}

after_line-IsState :
    (s : Status) (st : State) (events : List Event) (later : ℕ → Run)
    → IsState st
    → ((n : ℕ) → IsState (later n).state)
    → IsState (after_line s st events later).state
unfolding after_line
after_line-IsState (returned n) st events later h more = more n
after_line-IsState (exited n) st events later h more = h
after_line-IsState undefined st events later h more = h

module _ (kernel : List Event → Kernel) where
  run_lines-IsState :
      (st : State) (ret : ℕ) (events : List Event) (lines : List Bytes)
      → IsState st
      → IsState (run_lines kernel st ret events lines).state
  unfolding run_lines
  run_lines-IsState st ret events [] h = h
  run_lines-IsState st ret events (line ∷ lines) h =
      let trimmed = skip_blanks line in
      let k = kernel events in
      let text = copied_line k.stale trimmed in
      let r = execute_line k st text in
      let after = (execute_line-IsSound k st h text).state in
      let done = events ++ r.events in
      if_either (peek trimmed == 0 || peek trimmed == b'#') _ _
        (run_lines-IsState st ret events lines h)
        (after_line-IsState r.status r.state done (λ (n : ℕ). run_lines kernel r.state n done lines)
          after (λ n. run_lines-IsState r.state n done lines after))

  run_script-IsState :
      (st : State) (buf : Bytes) → IsState st → IsState (run_script kernel st buf).state
  unfolding run_script
  run_script-IsState st buf h =
      run_lines-IsState st 0 [] (pieces 10 (length (cstr buf)) (cstr buf)) h

  module _ (input : Reader) (f : ℕ) where
    interactive-IsState :
        (st : State) (stdin : input.State)
        → IsState st
        → IsState (interactive kernel input f st stdin).state
    unfolding interactive
    interactive-IsState st stdin h =
        run_lines-IsState st 0 []
          (map (λ line. cstr (stripped line)) (read_lines input f stdin 4096)) h

    scripted :
        (st : State) (read : Option Bytes)
        → IsState st
        → IsState
            (elim read as (λ _. Run) [
              | none ↦ record { state = st; events = []; status = returned 1 }
              | some buf ↦ run_script kernel st buf
            ]).state
    scripted st none h = h
    scripted st (some buf) h = run_script-IsState st buf h

    -- Whatever the shell is given, at most 255 variables and at most 64 rows are in use at its end.
    pub sh_main-IsState :
        (envp args : List Bytes) (script : Bytes → Option Bytes) (stdin : input.State)
        → IsState (sh_main kernel input f envp args script stdin).state
    unfolding sh_main
    sh_main-IsState envp [] script stdin =
        interactive-IsState (first_state envp) stdin (first_state-IsState envp)
    sh_main-IsState envp (a ∷ []) script stdin =
        if_either (peek a == b'-') _ _
          (interactive-IsState (first_state envp) stdin (first_state-IsState envp))
          (scripted (first_state envp) (script a) (first_state-IsState envp))
    sh_main-IsState envp (a ∷ b ∷ more) script stdin =
        let st = first_state envp in
        let h = first_state-IsState envp in
        if_either (str_eq a (codes "-c")) _ _
          (execute_line-IsSound (kernel []) st h (copied_line (kernel []).stale b)).state
          (if_either (peek a == b'-') _ _ (interactive-IsState st stdin h)
            (scripted st (script a) h))
