-- ===== src/Config/Server/Typed/Parsed.antt =====
-- src/relayserver/ServerConfigParams.ts: what a parsed configuration holds.
use rif_relay.Base.{
  Bool, Bool-cases, List, Option, Option-cases, Text, [], any, ap, arith, codes, filter,
  if◌then◌else◌, inl, inr, is_some, length, none, refl, some, subst, sym, text_eq, true, ◌==◌, ◌∙◌,
  ◌∷◌, ◌≡◌,
}
use rif_relay.Base.Dict.{
  IsDistinct, filter-IsDistinct, get, get-filter, get-overlay, or_get, or_get-none, or_get_assoc,
  overlay, overlay-IsDistinct,
}
use rif_relay.Base.Exec.{Result-cases, ok}
use rif_relay.Config.{Setting, Settings, a_bool, a_list, a_text, setting_at}
use rif_relay.Config.Server.{
  StartEnv, arguments_of, config_file, entries_to_obj, explicit_types, filter_members, filter_type,
  parse_server_config, read_config_file,
}
use rif_relay.Config.Server.Defaults.{config_params_types, same_type, string_type}
use rif_relay.Config.Server.Typed.{explicit_types-IsDistinct, explicit_types-typed, typed_at}

-- What is not read as a number.
pub data IsVerbatim : Setting → Type 0 where
  one_text : (t : Text) → IsVerbatim (a_text t)
  more_texts : (ts : List Text) → IsVerbatim (a_list ts)
  a_flag : (b : Bool) → IsVerbatim (a_bool b)

-- What is relied on: minimist answers what the command line says of a name, which it reads by the
-- names that it is told are strings, whose values it never makes a number, or else the default; and
-- objects have each name once.
pub record IsStart (start : StartEnv) (on_line : List Text → List Text → Text → Option Setting)
    : Type 0 where
  pub from_line :
      (args strings : List Text) (defaults : Settings) (k : Text)
      → IsDistinct defaults
      → get k (start.parse_args args strings defaults).options
        ≡ or_get (on_line args strings k) (get k defaults)
  pub verbatim :
      (args strings : List Text) (k : Text) (v : Setting)
      → any (text_eq k) strings ≡ true
      → on_line args strings k ≡ some v
      → IsVerbatim v
  pub options_once :
      (args strings : List Text) (defaults : Settings)
      → IsDistinct (start.parse_args args strings defaults).options
  pub file_once :
      (name : Text) (file : Settings) → start.read_config name ≡ some (ok file) → IsDistinct file

-- The declared names of texts.
abbrev pub string_names : List Text
string_names =
    codes "config"
    ∷ codes "url"
    ∷ codes "versionRegistryAddress"
    ∷ codes "relayHubId"
    ∷ codes "relayHubAddress"
    ∷ codes "rskNodeUrl"
    ∷ codes "workdir"
    ∷ codes "trustedVerifiers"
    ∷ codes "relayVerifierAddress"
    ∷ codes "deployVerifierAddress"
    ∷ []

pub filter_type-string_names : filter_type config_params_types string_type ≡ string_names
unfolding filter_type config_params_types same_type
filter_type-string_names = refl

abbrev pub env_value : Text → Settings → Option Setting
env_value k env = if is_some (get k config_params_types) then get k env else none

module _ (start : StartEnv) (args : List Text) (env : Settings) where
  abbrev options : Settings
  options = (arguments_of start args env).options

  -- The typed entries of the file and the command line.
  parse_server_config-entries :
      (config : Settings)
      → parse_server_config start args env ≡ ok config
      → (file : Settings) × (ts : List (Text × Setting)) × (config_file start options ≡ ok file)
        × (explicit_types (overlay (overlay [] file) options) ≡ ok ts)
        × (config ≡ overlay [] ts)
  unfolding parse_server_config entries_to_obj
  parse_server_config-entries config h =
      elim (Bool-cases (length (arguments_of start args env).positional == 0)) [
        | inr some_ ↦ absurd (ground (arith, some_, h))
        | inl none_ ↦ elim (Result-cases (config_file start options)) [
          | inr (x, e) ↦ absurd (ground (arith, none_, e, h))
          | inl (file, e) ↦
              elim (Result-cases (explicit_types (overlay (overlay [] file) options))) [
                | inr (x, f) ↦ absurd (ground (arith, none_, e, f, h))
                | inl (ts, f) ↦ (file, ts, e, f, ground (arith, none_, e, f, h))
              ]
        ]
      ]

  pub parse_server_config-IsDistinct :
      (config : Settings) → parse_server_config start args env ≡ ok config → IsDistinct config
  unfolding entries_to_obj IsDistinct
  parse_server_config-IsDistinct config h =
      let (file, ts, e, f, same) = parse_server_config-entries config h in
      subst IsDistinct (sym same) (overlay-IsDistinct [] ts tt)

  get-filter_members :
      (k : Text) → IsDistinct env → get k (filter_members env config_params_types) ≡ env_value k env
  unfolding filter_members entries_to_obj get
  get-filter_members k d =
      let is_known = λ (j : Text). is_some (get j config_params_types) in
      get-overlay k [] (filter (λ e. is_known e.0) env) (filter-IsDistinct is_known env d)
      ∙ or_get-none (get k (filter (λ e. is_known e.0) env))
      ∙ get-filter is_known k env

  read_config_file-IsDistinct :
      (on_line : List Text → List Text → Text → Option Setting) (name : Option Setting)
      (file : Settings)
      → IsStart start on_line
      → read_config_file start name ≡ ok file
      → IsDistinct file
  unfolding read_config_file IsDistinct
  read_config_file-IsDistinct on_line none file law h =
      let same : [] ≡ file = ground (arith, h) in subst IsDistinct same tt
  read_config_file-IsDistinct on_line (some (a_text name)) file law h =
      elim (Option-cases (start.read_config name)) [
        | inl e ↦ absurd (ground (arith, e, h))
        | inr (r, e) ↦ law.file_once name file (ground (arith, e, h))
      ]
  read_config_file-IsDistinct on_line (some v) file law h = absurd (ground (arith, h))

  -- A name has in a parsed configuration the value of the command line, read with the declared names of
  -- texts as strings, or else that of the environment if the name is declared, or else that of the
  -- configuration file, in its declared type.
  pub parse_server_config-get :
      (on_line : List Text → List Text → Text → Option Setting) (config : Settings)
      → IsStart start on_line
      → IsDistinct env
      → parse_server_config start args env ≡ ok config
      → (file : Settings) × (config_file start options ≡ ok file)
        × ((k : Text)
            → get k config
              ≡ typed_at k
                  (or_get (on_line args string_names k) (or_get (env_value k env) (get k file))))
  unfolding arguments_of IsDistinct get config_file filter_members entries_to_obj
  parse_server_config-get on_line config law d h =
      let (file, ts, e, f, same) = parse_server_config-entries config h in
      let once =
        law.options_once args (filter_type config_params_types string_type)
          (filter_members env config_params_types) in
      let all_once = overlay-IsDistinct (overlay [] file) options (overlay-IsDistinct [] file tt) in
      let file_once =
        read_config_file-IsDistinct on_line (setting_at (codes "config") options) file law e in
      (
        file,
        e,
        λ k.
            let line : get k options ≡ or_get (on_line args string_names k) (env_value k env) =
              subst
                (λ names.
                  get k options
                  ≡ or_get (on_line args names k) (get k (filter_members env config_params_types)))
                filter_type-string_names
                (law.from_line args _ _ k (
                  overlay-IsDistinct [] (filter (λ e. is_some (get e.0 config_params_types)) env)
                    tt))
              ∙ ap (or_get (on_line args string_names k)) (get-filter_members k d) in
            let file_only : get k (overlay [] file) ≡ get k file =
              get-overlay k [] file file_once ∙ or_get-none (get k file) in
            ap (get k) same
            ∙ get-overlay k [] ts (explicit_types-IsDistinct _ ts f all_once)
            ∙ or_get-none (get k ts)
            ∙ (explicit_types-typed _ ts f).1 k
            ∙ ap (typed_at k) (
                get-overlay k (overlay [] file) options once
                ∙ ap (or_get (get k options)) file_only
                ∙ ap (λ o. or_get o (get k file)) line
                ∙ or_get_assoc (on_line args string_names k) (env_value k env) (get k file)),
      )
