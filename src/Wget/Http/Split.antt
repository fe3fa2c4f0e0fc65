-- ===== src/Wget/Http/Split.antt =====
-- tools/wget.c: a response whose header comes in several pieces.
use qoot.Base.{suc, ◌≡◌, ◌≢◌, refl, Bool, false, List, [], ◌∷◌, none, Bytes, length, All}
use qoot.Io.{Reader, got}
use qoot.Wget.Http.{header_end, response_loop}

module _ (k : Reader) where
  -- What the calls of `sys_recvfrom` deliver, to the end of the response.
  abbrev pub Pieces : k.State → List Bytes → Type 0
  Pieces s [] = (k.sys_read s 8192).0 ≡ got []
  Pieces s (p ∷ ps) = ((k.sys_read s 8192).0 ≡ got p) × (p ≢ []) × Pieces (k.sys_read s 8192).1 ps

  -- Where no single piece holds the end of the header, nothing is saved, no file is created, and yet
  -- wget returns 0.
  pub response_loop_split :
      (creates : Bool) (ps : List Bytes) (s : k.State)
      → Pieces s ps
      → All (λ p. header_end p ≡ none) ps
      → response_loop k creates (suc (length ps)) s
        ≡ record { result = 0; created = false; written = [] }
  unfolding response_loop
  response_loop_split creates [] s arrive unended = rw (arrive, response_loop)
  response_loop_split creates ([] ∷ ps) s arrive unended = absurd (arrive.1 refl)
  response_loop_split creates ((c ∷ p) ∷ ps) s arrive unended =
      rw (arrive.0, response_loop, unended.0)
        (response_loop_split creates ps (k.sys_read s 8192).1 arrive.2 unended.1)
