-- ===== src/Tests/Users.antt =====
-- include/io.h and include/auth.h: runs and witnesses.
use mathlib.Core.List.{cons-ne-nil}
use qoot.Base.{◌≡◌, ◌↔◌, refl, inr, true, List, [], ◌∷◌, some, Bytes, codes, replicate, arith}
use qoot.Auth.{
  is_user_authorized, user_name, authorized_in, trimmed_line, trim_end, line_authorizes,
}
use qoot.Auth.Config.{AnyLine, Entitles, is_user_authorized_iff}
use qoot.Io.{read_lines}
use qoot.Io.Lines.{read_lines-unlines}
use qoot.Io.Mode.{format_mode}
use qoot.Io.Passwd.{uid_to_name}
use qoot.Io.Passwd.Laws.{Account, IsAccount, IsTable}
use qoot.Str.{cstr, str_cmp, skip_space, starts_with, str_eq, str_len, str_ncpy, is_space}
use qoot.Str.Digits.{uint_to_str}
use qoot.Tests.Disk.{disk, disk_delivers}

two_lines : read_lines disk 5 (codes "ab\ncd\n") 1024 ≡ codes "ab" ∷ codes "cd" ∷ []
unfolding read_lines
two_lines = refl

hidden_line : read_lines disk 5 (codes "ab\n\ncd\n") 1024 ≡ codes "ab" ∷ []
unfolding read_lines
hidden_line = refl

mode_755 : format_mode 33261 ≡ codes "-rwxr-xr-x"
unfolding format_mode
mode_755 = refl

read_lines-unlines_example :
    read_lines disk 3 (codes "ab\ncd\n") 1024 ≡ codes "ab" ∷ codes "cd" ∷ []
read_lines-unlines_example =
    read_lines-unlines disk disk_delivers (codes "ab" ∷ codes "cd" ∷ []) 1024 3 (codes "ab\ncd\n")
      refl
      (
        (cons-ne-nil _ _, omega arith, omega arith),
        ((cons-ne-nil _ _, omega arith, omega arith), tt),
      )
      (omega arith) (omega arith)

abbrev accounts : List Account
accounts =
    record { name = codes "root"; password = codes "x"; id = 0; rest = codes "0::/root:" }
    ∷ record { name = codes "ada"; password = codes "x"; id = 1000; rest = codes "100::/home:" }
    ∷ []

abbrev pub passwd_file : Bytes
passwd_file = codes "root:x:0:0::/root:\nada:x:1000:100::/home:\n"

root_line :
    IsAccount
      (record { name = codes "root"; password = codes "x"; id = 0; rest = codes "0::/root:" })
unfolding uint_to_str
root_line = record {
  c_line = omega arith;
  c_name = omega arith;
  name_free = omega arith;
  password_free = omega arith;
  id_fits = omega arith;
}

ada_line :
    IsAccount
      (record { name = codes "ada"; password = codes "x"; id = 1000; rest = codes "100::/home:" })
unfolding uint_to_str
ada_line = record {
  c_line = omega arith;
  c_name = omega arith;
  name_free = omega arith;
  password_free = omega arith;
  id_fits = omega arith;
}

accounts-IsTable : IsTable disk disk_delivers passwd_file accounts
unfolding uint_to_str
accounts-IsTable = record {
  text = refl;
  fit = (
    (cons-ne-nil _ _, omega arith, omega arith),
    ((cons-ne-nil _ _, omega arith, omega arith), tt),
  );
  accounts = (root_line, (ada_line, tt));
}

abbrev config_lines : List Bytes
config_lines = codes "# staff" ∷ codes " ada NOPASSWD" ∷ []

-- The line of `bob` stands behind a blank line.
abbrev config_file : Bytes
config_file = codes "# staff\n ada NOPASSWD\n\nbob\n"

is_user_authorized_example :
    (is_user_authorized disk 3 (replicate 64 7) [] (some config_file) (some passwd_file) 1000
      ≡ true)
    ↔ AnyLine (Entitles (codes "ada")) config_lines
is_user_authorized_example =
    is_user_authorized_iff disk disk_delivers 3 (replicate 64 7) [] config_file passwd_file 1000
      accounts config_lines (codes "\nbob\n") {u = codes "ada"} (omega arith) refl accounts-IsTable
      (omega arith) refl (cons-ne-nil _ _) (omega arith) refl (inr (codes "bob\n", refl))
      (
        (omega arith, (cons-ne-nil _ _, omega arith, omega arith)),
        ((omega arith, (cons-ne-nil _ _, omega arith, omega arith)), tt),
      )
      (omega arith)

ada_is_authorized :
    is_user_authorized disk 3
      (replicate 64 7)
      (replicate 1024 7)
      (some config_file)
      (some passwd_file)
      1000
    ≡ true
unfolding is_user_authorized user_name authorized_in read_lines uid_to_name cstr str_cmp skip_space
    trimmed_line trim_end line_authorizes str_eq starts_with str_len str_ncpy is_space uint_to_str
ada_is_authorized = refl
