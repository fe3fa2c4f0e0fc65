-- ===== src/Tests/Packages.antt =====
-- tools/ar.c: runs and witnesses.
use qoot.Ar.{ar_extract, ar_list, extracted, magic}
use qoot.Ar.Header.{File, archived}
use qoot.Ar.Members.{ar_extract-archived}
use qoot.Ar.Names.{ar_extract-Stays, Stays}
use qoot.Base.{◌≡◌, refl, true, List, [], ◌∷◌, ◌++◌, codes, drop, map, All, arith}
use qoot.Str.{cstr, str_eq}
use qoot.Str.Digits.{ulong_to_str}
use qoot.Tests.Disk.{disk, disk_delivers_all}

abbrev two_members : List File
two_members =
    record { name = codes "control"; contents = codes "abc" }
    ∷ record { name = codes "data"; contents = codes "xy" }
    ∷ []

listed :
    (ar_list disk (λ s n. drop n s) 3 (magic ++ archived two_members)).0
    ≡ codes "control" ∷ codes "data" ∷ []
unfolding ar_list ulong_to_str str_eq cstr
listed = refl

ar_extract-archived_example :
    ar_extract disk (λ s n. drop n s) (λ name. true) 3 (magic ++ archived two_members)
    ≡ (map (λ file. extracted file.name file.contents) two_members, 0)
ar_extract-archived_example =
    ar_extract-archived disk disk_delivers_all (λ s n. drop n s) (λ s n. refl) (λ name. true) 3
      two_members (magic ++ archived two_members) (omega arith) refl
      (
        (omega arith, omega arith, omega arith, omega arith),
        ((omega arith, omega arith, omega arith, omega arith), tt),
      )
      (refl, (refl, tt))

ar_extract-Stays_example :
    All Stays (ar_extract disk (λ s n. drop n s) (λ name. true) 3 (magic ++ archived two_members)).0
ar_extract-Stays_example =
    ar_extract-Stays disk (λ s n. drop n s) (λ name. true) 3 (magic ++ archived two_members)
