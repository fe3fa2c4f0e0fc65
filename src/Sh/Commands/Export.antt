-- ===== src/Sh/Commands/Export.antt =====
-- tools/sh.c: a variable that is exported is expanded to its value in the lines behind.
use qoot.Base.{
  ◌<◌, ◌≤◌, ◌≡◌, ◌≢◌, ◌⊎◌, refl, ap, ◌∙◌, true, not, List, [], ◌∷◌, ◌++◌, append-nil, none, some,
  Bytes, codes, length, take, take_whole, length-append, lt→ltb, All, arith, ◌==◌,
}
use qoot.Sh.Commands.{Kernel, State, export_all, execute_cmd}
use qoot.Sh.Environment.{Environment, get_env, set_env}
use qoot.Sh.Environment.Names.{IsName, str_chr-name, IsName-IsCString}
use qoot.Sh.Environment.Update.{get_env-set_env}
use qoot.Sh.Expand.{value_of, expand_vars}
use qoot.Sh.Expand.Bound.{expand, expand_within}
use qoot.Sh.Expand.Variables.{expand_vars_braced}
use qoot.Str.{str_cmp, str_eq}
use qoot.Str.Laws.{str_eq_iff}

runs_export :
    (k : Kernel) (st : State) (args : List Bytes)
    → (execute_cmd k st (codes "export" ∷ args)).state ≡ export_all args st
unfolding execute_cmd str_eq str_cmp
runs_export k st args = refl

module _ (k : Kernel) (st : State) (key value : Bytes) (key_name : IsName key) where
  abbrev entry : Bytes
  entry = key ++ b'=' ∷ value

  -- The table behind `export key=value`.
  abbrev after_export : Environment
  after_export = (execute_cmd k st (codes "export" ∷ entry ∷ [])).state.env

  exports_one :
      length entry ≤ 255 → st.env_idx < 64 → (export_all (entry ∷ []) st).env ≡ set_env entry st.env
  unfolding export_all
  exports_one fits room =
      rw (str_chr-name key value key_name, export_all)
        (rw (lt→ltb st.env_idx 64 room) (rw (take_whole 255 entry fits) refl))

  value_after :
      length entry ≤ 255
      → st.env_idx < 64
      → (length st.env < 255) ⊎ (get_env st.env key ≢ none)
      → value_of after_export key ≡ value
  unfolding value_of
  value_after fits room free =
      let same =
        (str_eq_iff key key (IsName-IsCString key key_name) (IsName-IsCString key key_name)).1
          refl in
      let env_eq : after_export ≡ set_env entry st.env =
        ap (λ (s : State). s.env) (runs_export k st (entry ∷ [])) ∙ exports_one fits room in
      let found : get_env after_export key ≡ some value =
        ap (λ (env : Environment). get_env env key) env_eq
        ∙ get_env-set_env key value key_name st.env key key_name free
        ∙ rw same refl in
      rw (found, value_of) refl

  nothing : (env : Environment) → expand env [] ≡ []
  unfolding expand expand_within
  nothing env = refl

  -- Behind `export key=value` the text `${key}` is expanded to `value`, where the key has no `=` and
  -- no `}`, the entry at most 255 bytes, a row is free, and the table has room or an entry of the
  -- key.
  pub expand_vars-export :
      length entry ≤ 255
      → st.env_idx < 64
      → (length st.env < 255) ⊎ (get_env st.env key ≢ none)
      → All (λ c. not (c == b'}') ≡ true) key
      → expand_vars after_export (b'$' ∷ b'{' ∷ (key ++ b'}' ∷ [])) 4096 ≡ value
  expand_vars-export fits room free plain =
      let parts = length-append key (b'=' ∷ value) in
      expand_vars_braced after_export [] key [] 4095 tt plain (omega (arith, parts))
      ∙ ap (take 4095) (
          ap (λ (v : Bytes). v ++ expand after_export []) (value_after fits room free)
          ∙ ap (λ (t : Bytes). value ++ t) (nothing after_export)
          ∙ append-nil value)
      ∙ take_whole 4095 value (omega (arith, parts))
