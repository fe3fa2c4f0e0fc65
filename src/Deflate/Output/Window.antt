-- ===== src/Deflate/Output/Window.antt =====
-- include/deflate.h: the window of `inflate_out_t` against the bytes emitted so far.

use qoot.Base.{
  Bool, true, false, ℕ, zero, suc, ◌+◌, ◌-◌, ◌%◌, ◌^◌, ◌<◌, ◌≤◌, ◌≡◌, inl, inr, refl, ap, sym, ◌∙◌,
  [], ◌∷◌, ◌++◌, append-nil, append_assoc, Bytes, length, length-append, length-set, length-drop,
  take-append-drop, get_or, get_or-set_same, get_or-set_other, set, take, drop, leb, ltb,
  Bool-cases, if◌then◌else◌, arith,
}
use qoot.Base.Int.{ℤ, pos, negsuc}
use qoot.Deflate.{crc32_update, crc32_loop}
use qoot.Deflate.Output.{
  Result, done, error, stuck, ◌>>=◌, Writer, Out, write_loop, inf_flush, inf_emit, copy_match,
}

-- `n <= 0`
abbrev pub is_failure : ℤ → Bool
is_failure (pos (suc n)) = false
is_failure z = true

-- A write of some bytes, in some state of the descriptor, makes no progress.
abbrev pub Fails : Writer → Type 0
Fails w = (s : w.State) × (c : ℕ) × (p : Bytes) × (is_failure (w.sys_write s (c ∷ p)).0 ≡ true)

-- What a result promises: a state with P, or the error, and then F; never that the fuel ran out.
abbrev pub Gives : {A : Type 0} → Type 0 → (A → Type 0) → Result A → Type 0
Gives F P (done a) = P a
Gives F P error = F
Gives F P stuck = ⊥

-- What write(2) reports: a number of bytes, which it has appended, or no progress.
abbrev pub Wrote : {S : Type 0} → (S → Bytes) → S → Bytes → ℤ → S → Type 0
Wrote written s p (pos (suc n)) s' = (n < length p) × (written s' ≡ written s ++ take (suc n) p)
Wrote written s p z s' = Unit

pub record Appends (w : Writer) : Type 1 where
  pub written : w.State → Bytes
  pub writes : (s : w.State) (p : Bytes) → Wrote written s p (w.sys_write s p).0 (w.sys_write s p).1

pub Gives-bind :
    {A B : Type 0} (F : Type 0) (P : A → Type 0) (Q : B → Type 0) (r : Result A) (g : A → Result B)
    → Gives F P r
    → ((x : A) → P x → Gives F Q (g x))
    → Gives F Q (r >>= g)
Gives-bind F P Q (done x) g h k = k x h
Gives-bind F P Q error g h k = h
Gives-bind F P Q stuck g h k = absurd h

crc32_loop-snoc :
    (crc : ℕ) (bytes : Bytes) (b : ℕ)
    → crc32_loop crc (bytes ++ b ∷ []) ≡ crc32_update (crc32_loop crc bytes) b
unfolding crc32_loop
crc32_loop-snoc crc [] b = refl
crc32_loop-snoc crc (c ∷ bytes) b = crc32_loop-snoc (crc32_update crc c) bytes b

get_or-snoc_last : (xs : Bytes) (b : ℕ) → get_or (xs ++ b ∷ []) (length xs) 0 ≡ b
get_or-snoc_last [] b = refl
get_or-snoc_last (x ∷ xs) b = get_or-snoc_last xs b

get_or-snoc : (xs : Bytes) (b i : ℕ) → i < length xs → get_or (xs ++ b ∷ []) i 0 ≡ get_or xs i 0
get_or-snoc [] b i h = absurd (omega arith)
get_or-snoc (x ∷ xs) b zero h = refl
get_or-snoc (x ∷ xs) b (suc i) h = get_or-snoc xs b i (omega arith)

-- One byte stored at the place of position n: the window holds the last 32768 bytes.
window-snoc :
    (win hist : Bytes) (b : ℕ)
    → length win ≡ 32768
    → ((i : ℕ)
        → i < length hist
        → length hist ≤ i + 32768
        → get_or win (i % 32768) 0 ≡ get_or hist i 0)
    → (i : ℕ) → i < length hist + 1
    → length hist + 1 ≤ i + 32768
    → get_or (set win (length hist % 32768) b) (i % 32768) 0 ≡ get_or (hist ++ b ∷ []) i 0
window-snoc win hist b size old i lt near = elim (Bool-cases (ltb i (length hist))) [
  | inl before ↦
      let in_hist : i < length hist = ground arith in
      get_or-set_other win (length hist % 32768) (i % 32768) b 0 (omega arith)
      ∙ old i in_hist (omega arith)
      ∙ sym (get_or-snoc hist b i in_hist)
  | inr last ↦
      let now : i ≡ length hist = ground arith in
      rw now (
        get_or-set_same win (length hist % 32768) b 0 (omega arith) ∙ sym (get_or-snoc_last hist b))
]

-- What a match stands for: n times the byte that lies `distance` back.
pub repeat_back : ℕ → ℕ → Bytes → Bytes
repeat_back zero distance hist = hist
repeat_back (suc n) distance hist =
    repeat_back n distance (hist ++ get_or hist (length hist - distance) 0 ∷ [])

module _ (w : Writer) (a : Appends w) where
  -- One round of `inf_flush` on what `sys_write` returned, the later rounds being right.
  one_write :
      (f : ℕ) (c : ℕ) (p : Bytes) (s : w.State) (z : ℤ) (s' : w.State)
      → Wrote a.written s (c ∷ p) z s'
      → length p ≤ f
      → (is_failure z ≡ true → Fails w)
      → ((q : Bytes) (u : w.State)
          → length q ≤ f
          → Gives (Fails w) (λ s'. a.written s' ≡ a.written u ++ q) (write_loop w f q u))
      → Gives
          (Fails w)
          (λ s'. a.written s' ≡ a.written s ++ c ∷ p)
          (elim z as (λ _. Result w.State) [
            | pos (suc n) ↦ write_loop w f (drop (suc n) (c ∷ p)) s'
            | _ ↦ error
          ])
  one_write f c p s (pos zero) s' wrote h fails later = fails refl
  one_write f c p s (negsuc n) s' wrote h fails later = fails refl
  one_write f c p s (pos (suc n)) s' wrote h fails later =
      let whole : a.written s' ++ drop n p ≡ a.written s ++ c ∷ p =
        ap (λ t. t ++ drop n p) wrote.1
        ∙ append_assoc (a.written s) (take (suc n) (c ∷ p)) (drop n p)
        ∙ ap (◌++◌ (a.written s)) (take-append-drop (suc n) (c ∷ p)) in
      let shorter : length (drop n p) ≤ f = omega (arith, length-drop n p) in
      rw whole at (later (drop n p) s' shorter)

  write_loop-Gives :
      (f : ℕ) (p : Bytes) (s : w.State)
      → length p ≤ f
      → Gives (Fails w) (λ s'. a.written s' ≡ a.written s ++ p) (write_loop w f p s)
  unfolding write_loop
  write_loop-Gives f [] s h = sym (append-nil (a.written s))
  write_loop-Gives zero (c ∷ p) s h = absurd (omega arith)
  write_loop-Gives (suc f) (c ∷ p) s h =
      one_write f c p s (w.sys_write s (c ∷ p)).0 (w.sys_write s (c ∷ p)).1 (a.writes s (c ∷ p))
        (omega arith) (λ e. (s, c, p, e)) (write_loop-Gives f)

  -- What the output state holds when the bytes of `hist` have been emitted.
  pub record IsOut (hist : Bytes) (o : Out w.State) : Type 0 where
    pub output : a.written o.fd ++ o.outbuf ≡ hist
    pub counted : o.total ≡ length hist
    pub position : o.winpos ≡ length hist
    pub checksum : o.crc ≡ crc32_loop 0xFFFFFFFF hist
    pub window_size : length o.window ≡ 32768
    pub recent :
        (i : ℕ)
        → i < length hist
        → length hist ≤ i + 32768
        → get_or o.window (i % 32768) 0 ≡ get_or hist i 0

  inf_flush-Gives :
      (hist : Bytes) (o : Out w.State) → IsOut hist o → Gives (Fails w) (IsOut hist) (inf_flush w o)
  unfolding inf_flush
  inf_flush-Gives hist o h =
      Gives-bind (Fails w) (λ s'. a.written s' ≡ a.written o.fd ++ o.outbuf) (IsOut hist)
        (write_loop w (length o.outbuf) o.outbuf o.fd) _
        (write_loop-Gives (length o.outbuf) o.outbuf o.fd (omega arith))
        (λ fd written. record {
          output = append-nil (a.written fd) ∙ written ∙ h.output;
          counted = h.counted;
          position = h.position;
          checksum = h.checksum;
          window_size = h.window_size;
          recent = h.recent;
        })

  -- `inf_emit` adds the byte to all of it, or fails as `sys_write` does.
  pub inf_emit-Gives :
      (hist : Bytes) (o : Out w.State) (byte : ℕ)
      → length hist + 1 < 2 ^ 64
      → IsOut hist o
      → Gives (Fails w) (IsOut (hist ++ byte ∷ [])) (inf_emit w o byte)
  unfolding inf_emit
  inf_emit-Gives hist o byte small h =
      let grown = length-append hist (byte ∷ []) in
      let o' : Out w.State = record {
        fd = o.fd;
        outbuf = o.outbuf ++ byte ∷ [];
        window = set o.window (o.winpos % 32768) byte;
        winpos = (o.winpos + 1) % 2 ^ 64;
        total = (o.total + 1) % 2 ^ 64;
        crc = crc32_update o.crc byte;
      } in
      let h' : IsOut (hist ++ byte ∷ []) o' = record {
        output =
            sym (append_assoc (a.written o.fd) o.outbuf (byte ∷ []))
            ∙ ap (λ t. t ++ byte ∷ []) h.output;
        counted = omega (arith, h.counted);
        position = omega (arith, h.position);
        checksum = ap (λ c. crc32_update c byte) h.checksum ∙ sym (crc32_loop-snoc _ hist byte);
        window_size = length-set o.window _ byte ∙ h.window_size;
        recent = λ i lt near.
            rw h.position
              (window-snoc o.window hist byte h.window_size h.recent i (omega arith) (omega arith));
      } in
      elim (Bool-cases (leb 8192 (length o'.outbuf))) [
        | inl full ↦ rw (full, if◌then◌else◌) (inf_flush-Gives (hist ++ byte ∷ []) o' h')
        | inr room ↦ rw (room, if◌then◌else◌) h'
      ]

  -- A match of `n` bytes at a distance within the window and the bytes so far is the repetition of
  -- what lies that far back, also where it overlaps itself; it fails only if there is a state of
  -- the descriptor in which sys_write, given some bytes, makes no progress.
  pub copy_match-Gives :
      (n distance : ℕ) (hist : Bytes) (o : Out w.State)
      → 0 < distance
      → distance ≤ length hist
      → distance ≤ 32768
      → length hist + n < 2 ^ 64
      → IsOut hist o
      → Gives (Fails w) (IsOut (repeat_back n distance hist)) (copy_match w n distance o)
  unfolding copy_match repeat_back
  copy_match-Gives zero distance hist o back far win small h = h
  copy_match-Gives (suc n) distance hist o back far win small h =
      let at = length hist - distance in
      let next = hist ++ get_or hist at 0 ∷ [] in
      let grown = length-append hist (get_or hist at 0 ∷ []) in
      let place : (o.winpos + 2 ^ 64 - distance) % 32768 ≡ at % 32768 = omega (arith, h.position) in
      let byte : get_or o.window ((o.winpos + 2 ^ 64 - distance) % 32768) 0 ≡ get_or hist at 0 =
        ap (λ i. get_or o.window i 0) place ∙ h.recent at (omega arith) (omega arith) in
      rw byte (
        Gives-bind (Fails w) (IsOut next) (IsOut (repeat_back n distance next))
          (inf_emit w o (get_or hist at 0)) _
          (inf_emit-Gives hist o (get_or hist at 0) (omega arith) h)
          (λ o' h'. copy_match-Gives n distance next o' back (omega arith) win (omega arith) h'))
