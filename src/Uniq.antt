-- ===== src/Uniq.antt =====
-- tools/uniq.c: the buffer, the lines in it, and what is printed.
pub mod Pieces
pub mod Runs
use qoot.Base.{
  ℕ, zero, suc, ◌+◌, ◌-◌, ◌%◌, ◌^◌, Bool, true, false, not, ◌&&◌, ◌||◌, List, [], ◌∷◌, ◌++◌, Bytes,
  length, replicate, ltb, ◌==◌, if◌then◌else◌,
}
use qoot.Io.{Reader, got, failed}
use qoot.Str.{cstr, str_eq, str_ncpy}
use qoot.Str.Digits.{ulong_to_str}

-- `-c` and `-d`
pub record Flags : Type 0 where
  pub count_flag : Bool
  pub dup_only : Bool

-- The variables of the loop, and what has been printed.
pub record Uniq : Type 0 where
  pub prev : Bytes
  pub have_prev : Bool
  pub count : ℕ
  pub out : Bytes

-- A line with its count before it, if that is asked for.
unfoldable pub row : Flags → Bytes → ℕ → Bytes
row o line count =
    let cbuf = (ulong_to_str count).0 in
    let shown = replicate (7 - length cbuf) 32 ++ (cbuf ++ 32 ∷ []) in
    (if o.count_flag then shown else []) ++ (line ++ 10 ∷ [])

-- `have_prev && (!dup_only || count > 1)`: what is printed of the lines that were equal.
unfoldable pub flush : Flags → Uniq → Bytes
unfolding row
flush o u =
    if u.have_prev && (not o.dup_only || ltb 1 u.count) then row o (cstr u.prev) u.count else []

-- A line of the buffer.
unfoldable pub line_step : Flags → Uniq → Bytes → Uniq
unfolding flush
line_step o u line =
    if not u.have_prev || not (str_eq (cstr line) (cstr u.prev))
    then record {
      prev = str_ncpy u.prev (cstr line) 4095;
      have_prev = true;
      count = 1;
      out = u.out ++ flush o u;
    }
    else record {
      prev = u.prev;
      have_prev = u.have_prev;
      count = (u.count + 1) % 2 ^ 64;
      out = u.out;
    }

-- The loop over the buffer, with the bytes from `line_start` to `eol`: what `mem_move` keeps, and
-- the variables. At the end of the file the last line needs no newline.
unfoldable pub buffer_loop : Flags → Bool → Bytes → Bytes → Uniq → Bytes × Uniq
unfolding line_step
buffer_loop o at_end (c ∷ p) start u =
    let next = buffer_loop o at_end p [] (line_step o u start) in
    let same = buffer_loop o at_end p (start ++ c ∷ []) u in if c == 10 then next else same
buffer_loop o at_end [] [] u = ([], u)
buffer_loop o at_end [] (c ∷ start) u =
    if at_end then ([], line_step o u (c ∷ start)) else (c ∷ start, u)

-- `char prev[4096] = ""`
abbrev pub initial : Uniq
initial = record { prev = replicate 4096 0; have_prev = false; count = 0; out = [] }

module _ (k : Reader) (o : Flags) where
  -- The loop over the reads, for at most `f` of them; `buf` is what the last one left.
  unfoldable pub read_pieces : ℕ → k.State → Bytes → Uniq → Uniq
  unfolding buffer_loop
  read_pieces zero fd buf u = u
  read_pieces (suc f) fd buf u =
      let r = k.sys_read fd (65535 - length buf) in
      let last = (buffer_loop o true buf [] u).1 in
      elim r.0 as (λ _. Uniq) [
        | failed e ↦ last
        | got [] ↦ last
        | got (c ∷ piece) ↦
            let (left, v) = buffer_loop o false (buf ++ c ∷ piece) [] u in read_pieces f r.1 left v
      ]

  -- What is printed.
  unfoldable pub uniq_main : ℕ → k.State → Bytes
  unfolding read_pieces flush
  uniq_main f fd = let u = read_pieces f fd [] initial in u.out ++ flush o u
