-- ===== src/Tests/Privileges.antt =====
-- tools/sudo.c: runs and witnesses.
use qoot.Base.{◌≡◌, List, [], ◌∷◌, some, Bytes, codes, replicate, true, arith, ◌<◌, length}
use qoot.Io.Password.{read_password}
use qoot.Str.{str_eq}
use qoot.Sudo.{World, Exec, sudo_main}
use qoot.Sudo.Safety.{sudo_main_any_password}
use qoot.Tests.Disk.{disk}
use qoot.Tests.Users.{passwd_file}

-- A caller that the configuration lists, with a password to type.
abbrev ada : World disk
ada = record {
  uid = 1000;
  euid = 0;
  conf = some (codes "ada\n");
  passwd = some passwd_file;
  tty = some (codes "pw\n");
  executable = λ path. str_eq path (codes "/bin/ls");
  setgid_works = λ _. true;
  setuid_works = λ _. true;
}

abbrev ls : List Bytes
ls = codes "ls" ∷ codes "-l" ∷ []

abbrev ls_as_root : Exec
ls_as_root = record {
  path = codes "/bin/ls";
  argv = ls;
  envp =
      codes "PATH=/usr/local/sbin:/usr/local/bin:/usr/sbin:/usr/bin:/sbin:/bin"
      ∷ codes "SHELL=/bin/sh"
      ∷ codes "HOME=/root"
      ∷ codes "LOGNAME=root"
      ∷ codes "USER=root"
      ∷ codes "TERM=xterm"
      ∷ [];
  as_uid = 0;
  as_gid = 0;
}

two_typed : 0 < length (read_password disk (some (codes "pw\n")) 256).1
unfolding read_password
two_typed = omega arith

one_typed : 0 < length (read_password disk (some (codes "x\n")) 256).1
unfolding read_password
one_typed = omega arith

sudo_main_any_password_example :
    sudo_main disk 3
      (replicate 64 7)
      (replicate 1024 7)
      (record ada { tty = some (codes "pw\n") })
      ls
    ≡ sudo_main disk 3
        (replicate 64 7)
        (replicate 1024 7)
        (record ada { tty = some (codes "x\n") })
        ls
sudo_main_any_password_example =
    sudo_main_any_password disk 3 (replicate 64 7) (replicate 1024 7) ada ls (codes "pw\n")
      (codes "x\n") two_typed one_typed
