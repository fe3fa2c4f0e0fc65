-- ===== src/Uniq/Pieces.antt =====
-- tools/uniq.c: the pieces in which the input comes make no difference.

use qoot.Base.{
  ℕ, zero, suc, ◌+◌, ◌-◌, ◌<◌, ◌≡◌, ◌≢◌, ◌⊎◌, inl, inr, refl, ap, subst, sym, ◌∙◌, true, false,
  List, [], ◌∷◌, ◌++◌, append_assoc, append-nil, Bytes, length, length-append, All, All-append,
  arith, ne→==,
}
use qoot.Io.{Reader, Delivers, got}
use qoot.Io.Lines.{unlines}
use qoot.Str.Search.{Lacks}
use qoot.Uniq.{Flags, Uniq, line_step, buffer_loop, read_pieces}

-- No line has more than 65534 bytes, and the first one fewer than `room`.
abbrev pub Short : ℕ → Bytes → Type 0
Short zero t = ⊥
Short (suc room) [] = Unit
Short (suc room) (c ∷ t) = ((c ≡ 10) × Short 65535 t) ⊎ ((c ≢ 10) × Short room t)

room_left : (room : ℕ) (t : Bytes) → Short room t → 0 < room
room_left zero t h = absurd h
room_left (suc room) t h = omega arith

Short-front :
    (buf t : Bytes) (n room : ℕ)
    → Lacks 10 buf
    → length buf + room ≡ n
    → Short room t
    → Short n (buf ++ t)
Short-front [] t n room free e h =
    let same : room ≡ n = omega arith in subst (λ m. Short m t) same h
Short-front (c ∷ buf) t zero room free e h = absurd (omega arith)
Short-front (c ∷ buf) t (suc n) room free e h =
    inr (free.0, Short-front buf t n room free.1 (omega arith) h)

Short-line :
    (l t : Bytes) (room : ℕ)
    → Lacks 10 l
    → length l < room
    → Short 65535 t
    → Short room (l ++ 10 ∷ t)
Short-line l t zero free fits h = elim fits [ ]
Short-line [] t (suc room) free fits h = inl (refl, h)
Short-line (c ∷ l) t (suc room) free fits h =
    inr (free.0, Short-line l t room free.1 (omega arith) h)

pub Short-unlines :
    (ls : List Bytes) → All (λ l. Lacks 10 l × (length l < 65535)) ls → Short 65535 (unlines ls)
Short-unlines [] h = tt
Short-unlines (l ∷ ls) h = Short-line l (unlines ls) 65535 h.0.0 h.0.1 (Short-unlines ls h.1)

module _ (o : Flags) where
  -- What the buffer's loop makes of a piece, with the text `t` behind it still to come.
  record Keeps (t : Bytes) (start whole : Bytes) (u : Uniq) (r : Bytes × Uniq) : Type 0 where
    same : (buffer_loop o true whole start u).1 ≡ (buffer_loop o true (r.0 ++ t) [] r.1).1
    free : Lacks 10 r.0
    room : ℕ
    fits : length r.0 + room ≡ 65535
    short : Short room t

  carry :
      (t start start' whole whole' : Bytes) (u u' : Uniq) (r : Bytes × Uniq)
      → (buffer_loop o true whole start u).1 ≡ (buffer_loop o true whole' start' u').1
      → Keeps t start' whole' u' r
      → Keeps t start whole u r
  carry t start start' whole whole' u u' r e kept = record {
    same = e ∙ kept.same;
    free = kept.free;
    room = kept.room;
    fits = kept.fits;
    short = kept.short;
  }

  pub whole_start :
      (start s t : Bytes) (u : Uniq)
      → Lacks 10 start
      → buffer_loop o true (start ++ t) s u ≡ buffer_loop o true t (s ++ start) u
  unfolding buffer_loop
  whole_start [] s t u free = ap (λ (x : Bytes). buffer_loop o true t x u) (sym (append-nil s))
  whole_start (c ∷ start) s t u free = rw (ne→== c 10 free.0) (
      whole_start start (s ++ c ∷ []) t u free.1
      ∙ ap (λ (x : Bytes). buffer_loop o true t x u) (append_assoc s (c ∷ []) start))

  buffer_loop-Keeps :
      (b t start : Bytes) (room : ℕ) (u : Uniq)
      → Lacks 10 start
      → length start + room ≡ 65535
      → Short room (b ++ t)
      → Keeps t start (b ++ t) u (buffer_loop o false b start u)
  unfolding buffer_loop
  buffer_loop-Keeps [] t [] room u free e h = record {
    same = refl;
    free = tt;
    room = room;
    fits = e;
    short = h;
  }
  buffer_loop-Keeps [] t (c ∷ start) room u free e h = record {
    same = ap (λ (r : Bytes × Uniq). r.1) (sym (whole_start (c ∷ start) [] t u free));
    free = free;
    room = room;
    fits = e;
    short = h;
  }
  buffer_loop-Keeps (c ∷ b) t start zero u free e h = absurd h
  buffer_loop-Keeps (c ∷ b) t start (suc room) u free e (inl (is_newline, h)) =
      let kept = buffer_loop-Keeps b t [] 65535 (line_step o u start) tt (omega arith) h in
      rw is_newline (
        carry t start [] (10 ∷ (b ++ t)) (b ++ t) u (line_step o u start)
          (buffer_loop o false b [] (line_step o u start)) refl kept)
  buffer_loop-Keeps (c ∷ b) t start (suc room) u free e (inr (other, h)) =
      let longer = All-append (λ x. x ≢ 10) start (c ∷ []) free (other, tt) in
      let sum : length (start ++ c ∷ []) + room ≡ 65535 =
        omega (arith, length-append start (c ∷ [])) in
      let skips = ne→== c 10 other in
      let kept = buffer_loop-Keeps b t (start ++ c ∷ []) room u longer sum h in
      rw skips (
        carry t start (start ++ c ∷ []) (c ∷ (b ++ t)) (b ++ t) u u
          (buffer_loop o false b (start ++ c ∷ []) u) (rw skips refl) kept)

  module _ (k : Reader) (d : Delivers k) where
    abbrev behind : k.State → Bytes → Bytes
    behind s buf = d.content (k.sys_read s (65535 - length buf)).1

    -- However the text comes, the variables are those of the whole text in one buffer.
    pub read_pieces-whole :
        (f : ℕ) (s : k.State) (buf : Bytes) (room : ℕ) (u : Uniq)
        → Lacks 10 buf
        → length buf + room ≡ 65535
        → Short room (d.content s)
        → length (d.content s) < f
        → read_pieces k o f s buf u ≡ (buffer_loop o true (buf ++ d.content s) [] u).1
    unfolding read_pieces
    read_pieces-whole zero s buf room u free e h fuel = elim fuel [ ]
    read_pieces-whole (suc f) s buf room u free e h fuel =
        let m = 65535 - length buf in
        let asks : 0 < m = omega (arith, room_left room (d.content s) h) in
        each (d.chunk s m) (d.delivers s m) (d.in_order s m) (d.ends s m asks)
          (read_pieces-whole f (k.sys_read s m).1)
      where
        each :
            (b : Bytes)
            → (k.sys_read s (65535 - length buf)).0 ≡ got b
            → d.content s ≡ b ++ (behind s buf)
            → (b ≡ [] → d.content s ≡ [])
            → ((left : Bytes) (room : ℕ) (v : Uniq)
                → Lacks 10 left
                → length left + room ≡ 65535
                → Short room (behind s buf)
                → length (behind s buf) < f
                → read_pieces k o f (k.sys_read s (65535 - length buf)).1 left v
                  ≡ (buffer_loop o true (left ++ (behind s buf)) [] v).1)
            → read_pieces k o (suc f) s buf u ≡ (buffer_loop o true (buf ++ d.content s) [] u).1
        each [] g c n ih = rw (g, read_pieces, n refl, append-nil)
        each (x ∷ b) g c n ih =
            let whole : Short 65535 ((buf ++ x ∷ b) ++ (behind s buf)) =
              subst (Short 65535) (sym (append_assoc buf (x ∷ b) (behind s buf))) (
                Short-front buf (x ∷ b ++ (behind s buf)) 65535 room free e
                  (subst (Short room) c h)) in
            let r = buffer_loop o false (buf ++ x ∷ b) [] u in
            let kept =
              buffer_loop-Keeps (buf ++ x ∷ b) (behind s buf) [] 65535 u tt (omega arith) whole in
            let fewer : length (behind s buf) < f =
              omega (arith, ap length c, length-append (x ∷ b) (behind s buf)) in
            rw (g, read_pieces)
              (ih r.0 kept.room r.1 kept.free kept.fits kept.short fewer
                ∙ sym kept.same
                ∙ ap (λ (t : Bytes). (buffer_loop o true t [] u).1)
                    (append_assoc buf (x ∷ b) (behind s buf) ∙ ap (λ t. buf ++ t) (sym c)))
