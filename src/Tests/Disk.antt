-- ===== src/Tests/Disk.antt =====
-- A file held in memory: `sys_read` hands over as many bytes as are asked for.
use qoot.Base.{
  ℕ, zero, suc, ◌<◌, ◌≡◌, refl, sym, [], ◌∷◌, Bytes, take, drop, take-append-drop, length-take,
  arith,
}
use qoot.Io.{Reader, Delivers, got}
use qoot.Tar.Extract.Data.{DeliversAll}

abbrev pub disk : Reader
disk = record { State = Bytes; sys_read = λ s n. (got (take n s), drop n s) }

pub take-eq-nil : (n : ℕ) (s : Bytes) → 0 < n → take n s ≡ [] → s ≡ []
take-eq-nil zero s h e = elim h [ ]
take-eq-nil (suc n) [] h e = refl
take-eq-nil (suc n) (x ∷ s) h e = absurd (ground arith)

abbrev pub disk_delivers : Delivers disk
disk_delivers = record {
  content = λ s. s;
  chunk = λ s n. take n s;
  delivers = λ s n. refl;
  in_order = λ s n. sym (take-append-drop n s);
  fits = λ s n. omega (arith, length-take n s);
  ends = λ s n h e. take-eq-nil n s h e;
}

abbrev pub disk_delivers_all : DeliversAll disk
disk_delivers_all = record { content = λ s. s; reads = λ s n. refl; rest = λ s n. refl }
