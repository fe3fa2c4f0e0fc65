-- ===== src/Sh/Sessions.antt =====
-- tools/sh.c: `sh_main`, the lines of a script and those that are typed. The prompt is not
-- modelled.
pub mod Kept
use qoot.Base.{
  ℕ, zero, suc, Bool, true, false, ◌||◌, ◌&&◌, not, List, [], ◌∷◌, ◌++◌, Option, none, some, Bytes,
  codes, length, map, reverse, ◌==◌, if◌then◌else◌,
}
use qoot.Io.{Reader, read_lines}
use qoot.Sh.Environment.{Environment, init_env}
use qoot.Sh.Words.{skip_blanks, pieces}
use qoot.Sh.Commands.{Kernel, Event, Status, returned, exited, undefined, State, Run}
use qoot.Sh.Lines.{execute_line}
use qoot.Str.{peek, cstr, str_eq, str_ncpy}

-- `cmd_line`, and `line` for the option -c.
unfoldable pub copied_line : Bytes → Bytes → Bytes
copied_line stale text = cstr (str_ncpy stale text 4095)

-- A line that ends the shell ends the loop.
unfoldable pub after_line : Status → State → List Event → (ℕ → Run) → Run
after_line (returned n) st events later = later n
after_line (exited n) st events later = record { state = st; events = events; status = exited n }
after_line undefined st events later = record { state = st; events = events; status = undefined }

-- The loop over the lines: blank ones and comments leave the status of the line before. The answers
-- of the kernel depend on what has been done.
unfoldable pub run_lines : (List Event → Kernel) → State → ℕ → List Event → List Bytes → Run
run_lines kernel st ret events [] = record { state = st; events = events; status = returned ret }
run_lines kernel st ret events (line ∷ lines) =
    let trimmed = skip_blanks line in
    let skipped = run_lines kernel st ret events lines in
    let k = kernel events in
    let r = execute_line k st (copied_line k.stale trimmed) in
    let done = events ++ r.events in
    let executed =
      after_line r.status r.state done (λ (n : ℕ). run_lines kernel r.state n done lines) in
    if peek trimmed == 0 || peek trimmed == b'#' then skipped else executed

-- The script, from the bytes that the one `sys_read` of the file gives.
unfoldable pub run_script : (List Event → Kernel) → State → Bytes → Run
run_script kernel st buf =
    let text = cstr buf in run_lines kernel st 0 [] (pieces 10 (length text) text)

-- The first loop on a line that has been typed, on the bytes from the last one on.
unfoldable pub strip : Bytes → Bytes
strip [] = []
strip (c ∷ line) = if c == 10 || c == 13 then strip line else c ∷ line

unfoldable pub stripped : Bytes → Bytes
stripped line = reverse (strip (reverse line))

-- The status is 0 at the end of the input.
unfoldable pub ended : Status → Status
ended (returned _) = returned 0
ended (exited n) = exited n
ended undefined = undefined

module _ (kernel : List Event → Kernel) (input : Reader) (f : ℕ) where
  -- `f` bounds the lines that are typed.
  unfoldable pub interactive : State → input.State → Run
  interactive st stdin =
      let lines = map (λ line. cstr (stripped line)) (read_lines input f stdin 4096) in
      let r = run_lines kernel st 0 [] lines in record r { status = ended r.status }

  -- `args` are the words behind the program's name, and `script` tells what `sys_read` gives for a
  -- file, `none` if it cannot be opened.
  unfoldable pub sh_main : List Bytes → List Bytes → (Bytes → Option Bytes) → input.State → Run
  sh_main envp args script stdin =
      let st : State = record { env = init_env envp; env_idx = 0 } in
      let k = kernel [] in
      elim args as (λ _. Run) [
        | [] ↦ interactive st stdin
        | a ∷ [] ↦ if peek a == b'-' then interactive st stdin else elim (script a) as (λ _. Run) [
          | none ↦ record { state = st; events = []; status = returned 1 }
          | some buf ↦ run_script kernel st buf
        ]
        | a ∷ b ∷ more ↦
            if str_eq a (codes "-c")
            then execute_line k st (copied_line k.stale b)
            else if peek a == b'-'
            then interactive st stdin
            else elim (script a) as (λ _. Run) [
              | none ↦ record { state = st; events = []; status = returned 1 }
              | some buf ↦ run_script kernel st buf
            ]
      ]
