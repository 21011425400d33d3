-- ===== src/Config/Tests.antt =====
-- The theorems on configurations, at one start of a server, one client and one deployment.
pub mod Parts
use rif_relay.Base.{
  Bool-cases, List, Option, Text, [], any, ap, arith, codes, false, if◌then◌else◌, inl, inr, none,
  refl, some, starts_with, subst, sym, text_eq, text_eq_iff, true, ℕ, ◌∙◌, ◌∷◌, ◌≡◌,
}
use rif_relay.Base.Dict.{
  IsDistinct, get, get-overlay, get-put, or_get, or_get-none, overlay, overlay-IsDistinct, put,
  put-IsDistinct,
}
use rif_relay.Base.Exec.{Result, Result-cases, err, ok}
use rif_relay.Client.Tests.Chain.{the_chain}
use rif_relay.Commands.Deploy.Contracts.{named}
use rif_relay.Common.Hex.{big_int}
use rif_relay.Common.Interactor.{ChainState}
use rif_relay.Common.Versions.{version_added}
use rif_relay.Config.{Setting, Settings, a_number, a_text}
use rif_relay.Config.Server.{
  ResolveEnv, StartEnv, arguments_of, config_file, parse_server_config, resolve_server_config,
}
use rif_relay.Config.Server.Defaults.{ParamType, config_params_types, server_default_configuration}
use rif_relay.Config.Server.Resolved.{IsHubOf, resolve_server_config-IsHubOf}
use rif_relay.Config.Server.Typed.{typed_at}
use rif_relay.Config.Server.Typed.Declared.{HasTypeIn, parse_server_config-HasTypeIn}
use rif_relay.Config.Server.Typed.Parsed.{IsStart, IsVerbatim, env_value, one_text, string_names}
use rif_relay.Config.Start.{ProcessEnv, server_settings}
use rif_relay.Config.Start.Settled.{server_settings-get}

-- A command line of names and their values in turn: a value is a number where it reads as one and its
-- name is not among the strings.
abbrev read_value : List Text → Text → Text → Setting
read_value strings k v = elim (big_int v) [
  | err e ↦ a_text v
  | ok n ↦ if any (text_eq k) strings then a_text v else a_number n
]

abbrev read_line : List Text → List Text → Settings
read_line strings (k ∷ v ∷ rest) = put k (read_value strings k v) (read_line strings rest)
read_line strings _ = []

read_line-IsDistinct : (strings args : List Text) → IsDistinct (read_line strings args)
unfolding IsDistinct
read_line-IsDistinct strings [] = tt
read_line-IsDistinct strings (k ∷ []) = tt
read_line-IsDistinct strings (k ∷ v ∷ rest) =
    put-IsDistinct k (read_value strings k v) (read_line strings rest)
      (read_line-IsDistinct strings rest)

abbrev the_file : Settings
the_file = (codes "checkInterval", a_number 7) ∷ (codes "workdir", a_text (codes "w")) ∷ []

abbrev the_start : StartEnv
the_start = record {
  parse_args = λ args strings defaults. record {
    positional = [];
    options = overlay (overlay [] defaults) (read_line strings args);
  };
  read_config = λ name. some (ok the_file);
}

abbrev on_line : List Text → List Text → Text → Option Setting
on_line args strings k = get k (read_line strings args)

the_start-from_line :
    (args strings : List Text) (defaults : Settings) (k : Text)
    → IsDistinct defaults
    → get k (overlay (overlay [] defaults) (read_line strings args))
      ≡ or_get (on_line args strings k) (get k defaults)
unfolding get
the_start-from_line args strings defaults k d =
    get-overlay k (overlay [] defaults) (read_line strings args) (read_line-IsDistinct strings args)
    ∙ ap (or_get (on_line args strings k))
        (get-overlay k [] defaults d ∙ or_get-none (get k defaults))

read_line-IsVerbatim :
    (args strings : List Text) (k : Text) (v : Setting)
    → any (text_eq k) strings ≡ true
    → get k (read_line strings args) ≡ some v
    → IsVerbatim v
unfolding get
read_line-IsVerbatim [] strings k v named h = absurd (ground (arith, h))
read_line-IsVerbatim (j ∷ []) strings k v named h = absurd (ground (arith, h))
read_line-IsVerbatim (j ∷ x ∷ rest) strings k v named h = elim (Bool-cases (text_eq j k)) [
  | inl e ↦
      let same : j ≡ k = (text_eq_iff j k).0 e in
      let named' : any (text_eq j) strings ≡ true =
        subst (λ i. any (text_eq i) strings ≡ true) (sym same) named in
      let its : a_text x ≡ v = elim (Result-cases (big_int x)) [
        | inl (n, q) ↦
            ground (
              arith,
              e,
              named',
              q,
              h,
              get-put j k (read_value strings j x) (read_line strings rest),
            )
        | inr (n, q) ↦
            ground (
              arith,
              e,
              named',
              q,
              h,
              get-put j k (read_value strings j x) (read_line strings rest),
            )
      ] in
      subst IsVerbatim its (one_text x)
  | inr e ↦
      read_line-IsVerbatim rest strings k v named
        (ground (arith, e, h, get-put j k (read_value strings j x) (read_line strings rest)))
]

the_start-IsStart : IsStart the_start on_line
unfolding IsDistinct get rif_relay.Base.Strings.text_eq
the_start-IsStart = record {
  from_line = λ args strings defaults k d. the_start-from_line args strings defaults k d;
  verbatim = read_line-IsVerbatim;
  options_once = λ args strings defaults.
      overlay-IsDistinct (overlay [] defaults) (read_line strings args)
        (overlay-IsDistinct [] defaults tt);
  file_once = λ name file e.
      let same : the_file ≡ file = ground (arith, e) in subst IsDistinct same (refl, (refl, tt));
}

abbrev the_args : List Text
the_args =
    codes "config"
    ∷ codes "c.json"
    ∷ codes "relayHubAddress"
    ∷ codes "0x1"
    ∷ codes "url"
    ∷ codes "http://r"
    ∷ codes "rskNodeUrl"
    ∷ codes "n"
    ∷ codes "port"
    ∷ codes "80"
    ∷ []

abbrev the_env : Settings
the_env = (codes "gasPriceFactor", a_text (codes "2")) ∷ (codes "PATH", a_text (codes "p")) ∷ []

abbrev value_of : Result Settings → Settings
value_of (ok config) = config
value_of (err e) = []

abbrev the_config : Settings
the_config = value_of (parse_server_config the_start the_args the_env)

parse_server_config-HasTypeIn_example :
    (file : Settings) × (config_file the_start (arguments_of the_start the_args the_env).options
      ≡ ok file)
    × ((k : Text) (v : Setting)
        → get k the_config ≡ some v
        → (type : ParamType) × (get k config_params_types ≡ some type) × HasTypeIn file k type v)
unfolding rif_relay.Base.Dict.get rif_relay.Base.Dict.overlay rif_relay.Base.Dict.put
    rif_relay.Base.Strings.starts_with rif_relay.Base.Strings.text_eq rif_relay.Common.Hex.big_int
    rif_relay.Common.Hex.parse_int rif_relay.Common.Hex.parse_int_16
    rif_relay.Config.Server.Defaults.config_params_types rif_relay.Config.Server.Defaults.same_type
    rif_relay.Config.Server.arguments_of rif_relay.Config.Server.config_file
    rif_relay.Config.Server.entries_to_obj rif_relay.Config.Server.explicit_type
    rif_relay.Config.Server.explicit_types rif_relay.Config.Server.filter_members
    rif_relay.Config.Server.filter_type rif_relay.Config.Server.number_of
    rif_relay.Config.Server.parse_server_config rif_relay.Config.Server.read_config_file
    rif_relay.Config.Server.typed_value rif_relay.Config.setting_at IsDistinct
parse_server_config-HasTypeIn_example =
    parse_server_config-HasTypeIn the_start the_args the_env on_line the_start-IsStart
      (refl, (refl, tt)) (one_text _, (one_text _, tt)) the_config refl

abbrev the_node : ResolveEnv
the_node = record {
  chain = the_chain;
  is_address = λ a. starts_with (codes "0x") a;
  registry_events = λ r id t. ok [];
  latest_timestamp = λ t. ok 9;
}

abbrev first_state : ChainState
first_state = record {
  time = 0;
  has_hub = false;
  has_relay_verifier = false;
  has_deploy_verifier = false;
  raw_tx_options = none;
  broadcasts = [];
  slept = 0;
}

abbrev the_process : ProcessEnv
the_process = record { parse_verifiers = λ v. ok (codes "0x2" ∷ []); node_at = λ url. the_node }

abbrev the_settings : Settings
the_settings = value_of (server_settings the_process the_start the_args the_env first_state).0

abbrev last_state : ChainState
last_state = (server_settings the_process the_start the_args the_env first_state).1

server_settings-get_example :
    (file : Settings) × (config_file the_start (arguments_of the_start the_args the_env).options
      ≡ ok file)
    × ((k : Text)
        → text_eq (codes "relayHubAddress") k ≡ false
        → text_eq (codes "trustedVerifiers") k ≡ false
        → get k the_settings
          ≡ or_get
              (typed_at k (
                or_get
                  (on_line the_args string_names k)
                  (or_get (env_value k the_env) (get k file))))
              (get k server_default_configuration))
unfolding IsDistinct rif_relay.Base.Dict.get rif_relay.Base.Dict.overlay rif_relay.Base.Dict.put
    rif_relay.Base.Exec.◌>>=◌ rif_relay.Base.Strings.starts_with rif_relay.Base.Strings.text_eq
    rif_relay.Common.Hex.big_int rif_relay.Common.Hex.parse_int rif_relay.Common.Hex.parse_int_16
    rif_relay.Common.Interactor.is_contract_deployed
    rif_relay.Config.Server.Defaults.config_params_types rif_relay.Config.Server.Defaults.same_type
    rif_relay.Config.Server.arguments_of rif_relay.Config.Server.config_file
    rif_relay.Config.Server.entries_to_obj rif_relay.Config.Server.explicit_type
    rif_relay.Config.Server.explicit_types rif_relay.Config.Server.filter_members
    rif_relay.Config.Server.filter_type rif_relay.Config.Server.given_hub
    rif_relay.Config.Server.hub_from rif_relay.Config.Server.number_of
    rif_relay.Config.Server.parse_server_config rif_relay.Config.Server.read_config_file
    rif_relay.Config.Server.resolve_server_config rif_relay.Config.Server.typed_value
    rif_relay.Config.Start.listed_verifiers rif_relay.Config.setting_at server_settings
server_settings-get_example =
    server_settings-get the_process the_start the_args the_env on_line the_settings first_state
      last_state the_start-IsStart (refl, (refl, tt)) refl

-- A hub that the registry names.
abbrev the_registry : ResolveEnv
the_registry = record the_node {
  registry_events = λ r id t. ok (version_added (codes "1") (codes "0x5") 3 ∷ []);
}

abbrev by_registry : Settings
by_registry =
    (codes "versionRegistryAddress", a_text (codes "0x7"))
    ∷ (codes "relayHubId", a_text (codes "hub"))
    ∷ (codes "url", a_text (codes "http://r"))
    ∷ (codes "workdir", a_text (codes "w"))
    ∷ []

abbrev by_registry_settings : Settings
by_registry_settings = value_of (resolve_server_config the_registry by_registry first_state).0

abbrev by_registry_state : ChainState
by_registry_state = (resolve_server_config the_registry by_registry first_state).1

resolve_server_config-IsHubOf_example :
    (chosen : Text) × IsHubOf the_registry by_registry chosen
    × (the_registry.is_address chosen ≡ true)
    × (get (codes "relayHubAddress") by_registry_settings ≡ some (a_text chosen))
    × ((time : ℕ) × (code : Text) × (the_registry.chain.code chosen time ≡ ok code)
        × (text_eq code (codes "0x") ≡ false)
        × (text_eq code (codes "0x00") ≡ false))
    × ((k : Text)
        → text_eq (codes "relayHubAddress") k ≡ false
        → get k by_registry_settings
          ≡ or_get (get k by_registry) (get k server_default_configuration))
unfolding IsDistinct rif_relay.Base.Dict.get rif_relay.Base.Exec.◌>>=◌
    rif_relay.Base.Strings.starts_with rif_relay.Base.Strings.text_eq
    rif_relay.Common.Interactor.is_contract_deployed rif_relay.Common.Versions.added
    rif_relay.Common.Versions.cancel_reasons rif_relay.Common.Versions.get_all_versions
    rif_relay.Common.Versions.get_version rif_relay.Common.Versions.is_mature
    rif_relay.Config.Server.hub_from rif_relay.Config.Server.latest_version
    rif_relay.Config.Server.period_of rif_relay.Config.Server.registered_hub
    rif_relay.Config.Server.resolve_server_config rif_relay.Config.setting_at
    rif_relay.Config.text_at
resolve_server_config-IsHubOf_example =
    resolve_server_config-IsHubOf the_registry by_registry by_registry_settings first_state
      by_registry_state (refl, (refl, (refl, (refl, tt)))) refl

abbrev few : Settings
few = (codes "clientId", a_text (codes "2")) ∷ []
