-- ===== src/Tests/Shell.antt =====
-- tools/sh.c: runs and witnesses.
use qoot.Base.{
  ◌≡◌, refl, inl, inr, true, false, [], ◌∷◌, ◌++◌, some, codes, replicate, length, take, arith,
}
use qoot.Sh.Commands.{Kernel, State, Process, own_input, in_pipe, own_output, out_pipe, execute_cmd}
use qoot.Sh.Commands.Export.{expand_vars-export}
use qoot.Sh.Environment.{Environment, get_env}
use qoot.Sh.Expand.{expand_vars, expand_loop}
use qoot.Sh.Expand.Bound.{expand, expand_loop_ends, expand_vars-take}
use qoot.Sh.Lines.{execute_line}
use qoot.Sh.Lines.Bounds.{IsState, IsSound}
use qoot.Sh.Lines.Sound.{execute_line-IsSound}
use qoot.Sh.Path.{found, find_in_path, search_dirs, search_list}
use qoot.Sh.Segments.{segments, is_pipe, in_sq_after, in_dq_after}
use qoot.Sh.Segments.Pipes.{piped, is_segment, segments-piped}
use qoot.Sh.Sessions.{sh_main}
use qoot.Sh.Sessions.Kept.{sh_main-IsState}
use qoot.Sh.Words.{parse_args, until, is_blank, pieces}
use qoot.Sh.Words.Loop.{parse_args-Line}
use qoot.Sh.Words.Spelling.{Spells, Line}
use qoot.Str.{str_eq, str_chr}
use qoot.Tests.Disk.{disk}

abbrev env : Environment
env = codes "PATH=/bin" ∷ codes "A=1" ∷ []

expand_loop_ends_example :
    expand_loop env 3 (codes "a$A") 5 ≡ some (take 5 (expand env (codes "a$A")))
expand_loop_ends_example = expand_loop_ends env 3 (codes "a$A") 5 (omega arith)

expand_vars-take_example : expand_vars env (codes "a$A") 3 ≡ take 2 (expand env (codes "a$A"))
expand_vars-take_example = expand_vars-take env (codes "a$A") 2

ls_is_plain : Spells (codes "ls") (codes "ls")
unfolding is_blank
ls_is_plain =
    Spells.bare ((omega arith, refl), ((omega arith, refl), tt)) (omega arith) (omega arith)
      (omega arith)

a_b_is_quoted : Spells (codes "a b") (codes "'a b'")
a_b_is_quoted = Spells.quoted b'\'' (codes "'a b'") (inr refl) (omega arith) refl

ls_line : Line (codes "ls" ∷ codes "a b" ∷ []) (codes " ls 'a b'")
unfolding is_blank
ls_line =
    Line.more {words = codes "a b" ∷ []} {line = codes "'a b'"} (codes " ") (codes "ls")
      (codes "ls") b' ' (codes " ls 'a b'") (refl, tt) ls_is_plain refl
      (Line.final [] (codes "a b") (codes "'a b'") (codes "'a b'") tt a_b_is_quoted refl) refl

parse_args-Line_example : parse_args (codes " ls 'a b'") ≡ take 63 (codes "ls" ∷ codes "a b" ∷ [])
parse_args-Line_example =
    parse_args-Line (codes "ls" ∷ codes "a b" ∷ []) (codes " ls 'a b'") ls_line

quoted_pipe : is_segment (codes "echo '|' ") false false ≡ true
unfolding is_segment is_pipe in_sq_after in_dq_after
quoted_pipe = refl

plain_segment : is_segment (codes "wc") false false ≡ true
unfolding is_segment is_pipe in_sq_after in_dq_after
plain_segment = refl

blank_segment : is_segment (codes " ") false false ≡ true
unfolding is_segment is_pipe in_sq_after in_dq_after
blank_segment = refl

segments-piped_example :
    segments (piped (codes "echo '|' ") (codes "wc" ∷ []))
    ≡ take 16 (codes "echo '|' " ∷ codes "wc" ∷ [])
segments-piped_example =
    segments-piped (codes "echo '|' ") (codes "wc" ∷ []) (quoted_pipe, (plain_segment, tt))

-- Everything in /bin runs; a child ends with the number of its words.
abbrev kernel : Kernel
kernel = record {
  executable = λ path. str_eq (take 5 path) (codes "/bin/");
  chdir_works = λ _. true;
  forks = true;
  readable = λ _. true;
  writable = λ _. true;
  run = λ p. some (length p.args);
  reaped = λ left. left;
  stale = replicate 4096 0;
}

abbrev start : State
start = record { env = env; env_idx = 0 }

wc_is_found : find_in_path kernel.executable env (codes "wc") ≡ found (codes "/bin/wc")
unfolding find_in_path search_list str_chr search_dirs pieces get_env until str_eq
wc_is_found = refl

start-IsState : IsState start
start-IsState = record { entries = omega arith; rows = omega arith }

execute_line-IsSound_example : IsSound kernel (execute_line kernel start (codes "echo $A | wc"))
execute_line-IsSound_example =
    execute_line-IsSound kernel start start-IsState (codes "echo $A | wc")

sh_main-IsState_example :
    IsState
      (sh_main
        (λ _. kernel)
        disk
        3
        env
        (codes "run.sh" ∷ [])
        (λ _. some (codes "export B=2\n"))
        []).state
sh_main-IsState_example =
    sh_main-IsState (λ _. kernel) disk 3 env (codes "run.sh" ∷ [])
      (λ _. some (codes "export B=2\n")) []

abbrev echo_child : Process
echo_child = record {
  path = codes "/bin/echo";
  args = codes "echo" ∷ codes "|" ∷ [];
  env = env;
  input = own_input;
  output = out_pipe;
}

abbrev wc_child : Process
wc_child = record {
  path = codes "/bin/wc";
  args = codes "wc" ∷ [];
  env = env;
  input = in_pipe;
  output = own_output;
}

expand_vars-export_example :
    expand_vars
      (execute_cmd kernel start (codes "export" ∷ (codes "B" ++ b'=' ∷ codes "x y") ∷ [])).state.env
      (b'$' ∷ b'{' ∷ (codes "B" ++ b'}' ∷ []))
      4096
    ≡ codes "x y"
expand_vars-export_example =
    expand_vars-export kernel start (codes "B") (codes "x y") (omega arith) (omega arith)
      (omega arith) (inl (omega arith)) (refl, tt)
