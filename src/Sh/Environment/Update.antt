-- ===== src/Sh/Environment/Update.antt =====
-- tools/sh.c: what `get_env` finds after `set_env`.
use qoot.Base.{
  suc, ◌+◌, ◌-◌, ◌<◌, ◌≡◌, ◌≢◌, ◌⊎◌, inl, inr, refl, ap, sym, ◌∙◌, true, false, [], ◌∷◌, ◌++◌,
  Option, none, some, Bytes, length, drop, length-append, arith, if◌then◌else◌, Bool-cases,
  Option-cases,
}
use qoot.Sh.Environment.{Environment, names, get_env, replace_entry, set_env}
use qoot.Sh.Environment.Names.{
  IsName, names-own, names-other, names_sound, names_front, drop-name, str_chr-name,
  IsName-IsCString,
}
use qoot.Str.{str_eq, str_len}
use qoot.Str.Laws.{str_len-length, str_eq_iff}
use qoot.Sh.Environment.Replaced.{replace_entry-cases}

module _ (key value : Bytes) (key_name : IsName key) where
  abbrev entry : Bytes
  entry = key ++ b'=' ∷ value

  key_of_entry : str_len entry - str_len (b'=' ∷ value) ≡ length key
  key_of_entry =
      omega (
        arith,
        str_len-length entry,
        str_len-length (b'=' ∷ value),
        length-append key (b'=' ∷ value),
      )

  value_behind : drop (length key + 1) entry ≡ value
  value_behind =
      let next : length key + 1 ≡ suc (length key) = omega arith in rw next (drop-name key value)

  -- Whether an entry names a variable, after the entry of `key` has been replaced.
  names_old :
      (old name : Bytes)
      → IsName name
      → names old entry (length key) ≡ true
      → key ≢ name
      → names old name (length name) ≡ false
  names_old old name h e ne =
      let found = names_sound old key key_name (sym (names_front old key (b'=' ∷ value)) ∙ e) in
      rw found (names-other key name (drop (suc (length key)) old) key_name h ne)

  get_env_own : (env : Environment) → get_env (entry ∷ env) key ≡ some value
  unfolding get_env
  get_env_own env = rw (str_len-length key, names-own key value) (ap some value_behind)

  get_env_skip :
      (old : Bytes) (env : Environment) (name : Bytes)
      → names old name (length name) ≡ false
      → get_env (old ∷ env) name ≡ get_env env name
  unfolding get_env
  get_env_skip old env name e = rw (str_len-length name, e) refl

  skip_both :
      (old : Bytes) (env env' : Environment) (name : Bytes)
      → get_env env' name ≡ get_env env name
      → get_env (old ∷ env') name ≡ get_env (old ∷ env) name
  unfolding get_env
  skip_both old env env' name e = rw e refl

  get_env_nothing : (name : Bytes) → get_env [] name ≡ none
  unfolding get_env
  get_env_nothing name = refl

  get_env-replaced_own :
      (env : Environment) {env' : Environment}
      → replace_entry entry (length key) env ≡ some env'
      → get_env env' key ≡ some value
  unfolding replace_entry
  get_env-replaced_own [] e = cc
  get_env-replaced_own (old ∷ env) {env'} e =
      elim (replace_entry-cases entry old (length key) env {env' = env'} e) [
        | inl (here, same) ↦ rw (sym same) (get_env_own env)
        | inr (there, (back, found, same)) ↦ rw (sym same) (
            get_env_skip old back key (sym (names_front old key (b'=' ∷ value)) ∙ there)
            ∙ get_env-replaced_own env {env' = back} found)
      ]

  get_env-replaced_other :
      (env : Environment) (name : Bytes) {env' : Environment}
      → IsName name
      → key ≢ name
      → replace_entry entry (length key) env ≡ some env'
      → get_env env' name ≡ get_env env name
  unfolding replace_entry
  get_env-replaced_other [] name h ne e = cc
  get_env-replaced_other (old ∷ env) name {env'} h ne e =
      elim (replace_entry-cases entry old (length key) env {env' = env'} e) [
        | inl (here, same) ↦ rw (sym same) (
            get_env_skip entry env name (names-other key name value key_name h ne)
            ∙ sym (get_env_skip old env name (names_old old name h here ne)))
        | inr (there, (back, found, same)) ↦
            rw (sym same) (
              skip_both old env back name
                (get_env-replaced_other env name {env' = back} h ne found))
      ]

  -- The table where the entry is added behind the others.
  get_env-added :
      (env : Environment) (name : Bytes)
      → get_env (env ++ entry ∷ []) name ≡ elim (get_env env name) as (λ _. Option Bytes) [
        | none ↦ get_env (entry ∷ []) name
        | some found ↦ some found
      ]
  unfolding get_env
  get_env-added [] name = refl
  get_env-added (old ∷ env) name = elim (Bool-cases (names old name (str_len name))) [
    | inl found ↦ rw found refl
    | inr further ↦ rw (further) (get_env-added env name)
  ]

  not_replaced :
      (env : Environment) → replace_entry entry (length key) env ≡ none → get_env env key ≡ none
  unfolding replace_entry get_env
  not_replaced [] e = refl
  not_replaced (old ∷ env) e = elim (Bool-cases (names old entry (length key))) [
    | inl here ↦ absurd (let f = rw here at e in cc)
    | inr there ↦ elim (Option-cases (replace_entry entry (length key) env)) [
      | inr (back, found) ↦ absurd (let f = rw (there, found) at e in cc)
      | inl none_such ↦
          get_env_skip old env key (sym (names_front old key (b'=' ∷ value)) ∙ there)
          ∙ not_replaced env none_such
    ]
  ]

  set_env_replaced :
      (env : Environment) {env' : Environment}
      → replace_entry entry (length key) env ≡ some env'
      → set_env entry env ≡ env'
  unfolding set_env
  set_env_replaced env e =
      rw (str_chr-name key value key_name, set_env) (rw (key_of_entry) (rw (e) refl))

  set_env_added :
      (env : Environment)
      → replace_entry entry (length key) env ≡ none
      → length env < 255
      → set_env entry env ≡ env ++ entry ∷ []
  unfolding set_env
  set_env_added env e room =
      rw (str_chr-name key value key_name, set_env) (rw (key_of_entry) (rw (e) (ground arith)))

  name-str_eq_same : (name : Bytes) → IsName name → str_eq key name ≡ true → key ≡ name
  name-str_eq_same name h =
      (str_eq_iff key name (IsName-IsCString key key_name) (IsName-IsCString name h)).0

  name-str_eq_other : (name : Bytes) → IsName name → str_eq key name ≡ false → key ≢ name
  name-str_eq_other name h e same =
      let t =
        (str_eq_iff key name (IsName-IsCString key key_name) (IsName-IsCString name h)).1 same in
      cc

  room_left :
      (env : Environment)
      → get_env env key ≡ none
      → (length env < 255) ⊎ (get_env env key ≢ none)
      → length env < 255
  room_left env e (inl room) = room
  room_left env e (inr found) = absurd (found e)

  -- After `set_env` of `key=value`, `get_env` gives `value` for `key` and for every other name
  -- what it gave before, provided that neither name has a `=` and that `key` has an entry or the
  -- table has room.
  pub get_env-set_env :
      (env : Environment) (name : Bytes)
      → IsName name
      → (length env < 255) ⊎ (get_env env key ≢ none)
      → get_env (set_env entry env) name
        ≡ (if str_eq key name then some value else get_env env name)
  get_env-set_env env name h room = elim (Option-cases (replace_entry entry (length key) env)) [
    | inr (env', replaced) ↦
        rw (set_env_replaced env {env' = env'} replaced) (elim (Bool-cases (str_eq key name)) [
          | inl same ↦ rw same (
              rw (sym (name-str_eq_same name h same))
                (get_env-replaced_own env {env' = env'} replaced))
          | inr differ ↦ rw differ (
              get_env-replaced_other env name {env' = env'} h (name-str_eq_other name h differ)
                replaced)
        ])
    | inl added ↦
        rw (set_env_added env added (room_left env (not_replaced env added) room))
          (elim (Bool-cases (str_eq key name)) [
            | inl same ↦ rw same (
                rw
                  (
                    sym (name-str_eq_same name h same),
                    get_env-added env key,
                    not_replaced env added,
                  )
                  (get_env_own []))
            | inr differ ↦
                rw (differ, get_env-added env name)
                  (elim (Option-cases (get_env env name)) [
                    | inr (found, e) ↦ rw e refl
                    | inl none_such ↦ rw none_such (
                        get_env_skip entry [] name
                          (names-other key name value key_name h (name-str_eq_other name h differ))
                        ∙ get_env_nothing name)
                  ])
          ])
  ]
