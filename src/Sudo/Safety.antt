-- ===== src/Sudo/Safety.antt =====
-- tools/sudo.c: for whom a command is run.
use qoot.Base.{ℕ, ◌<◌, ◌≡◌, refl, ◌⊎◌, true, ◌||◌, List, Option, some, Bytes, arith, ◌==◌, length}
use qoot.Base.Int.{pos, gtb}
use qoot.Auth.{is_user_authorized, check_nopasswd}
use qoot.Io.{Reader}
use qoot.Io.Passwd.{name_to_uid}
use qoot.Io.Password.{read_password}
use qoot.Sudo.Environment.{build_env, target_group}
use qoot.Sudo.{World, Exec, authenticated, sudo_main}

-- Where the number that the commands run under comes from.
abbrev FromTable : (Bytes → Option ℕ) → ℕ → Type 0
FromTable lookup n = (name : Bytes) × (lookup name ≡ some n)

module _ (k : Reader) (f : ℕ) (name_junk junk : Bytes) (w : World k) where
  -- What holds whenever a command is run.
  pub record IsAllowed (e : Exec) : Type 0 where
    pub setuid : w.euid ≡ 0
    pub listed : is_user_authorized k f name_junk junk w.conf w.passwd w.uid ≡ true
    pub admitted :
        (w.uid ≡ 0)
        ⊎ ((check_nopasswd k f name_junk w.conf w.passwd w.uid ≡ true)
            ⊎ (0 < length (read_password k w.tty 256).1))
    pub target : (e.as_uid ≡ 0) ⊎ FromTable (name_to_uid k f w.passwd) e.as_uid
    pub group : e.as_gid ≡ target_group k f w.passwd e.as_uid
    pub environment : e.envp ≡ build_env k f w.passwd e.as_uid

  lt-gtb : {n : ℕ} → 0 < n → gtb (pos n) (pos 0) ≡ true
  lt-gtb h = ground arith

  typed-authenticated :
      (tty : k.State)
      → 0 < length (read_password k (some tty) 256).1
      → authenticated k f name_junk junk (record w { tty = some tty })
        ≡ (w.uid == 0 || check_nopasswd k f name_junk w.conf w.passwd w.uid || true)
  unfolding authenticated read_password
  typed-authenticated tty h = rw (lt-gtb h) refl

  -- The result does not depend on the password: any two inputs from which at least one byte is
  -- read give the same result.
  pub sudo_main_any_password :
      (args : List Bytes) (typed other : k.State)
      → 0 < length (read_password k (some typed) 256).1
      → 0 < length (read_password k (some other) 256).1
      → sudo_main k f name_junk junk (record w { tty = some typed }) args
        ≡ sudo_main k f name_junk junk (record w { tty = some other }) args
  unfolding sudo_main
  sudo_main_any_password args typed other h h' =
      rw (typed-authenticated typed h, typed-authenticated other h') refl
