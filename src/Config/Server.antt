-- ===== src/Config/Server.antt =====
-- src/relayserver/ServerConfigParams.ts. minimist, the file system and `isAddress` of web3-utils are
-- parameters.
pub mod Defaults
pub mod Typed
pub mod Resolved
use mathlib.Core.Option
use rif_relay.Base.{
  Bool, List, Option, Text, [], codes, false, filter, if◌then◌else◌, is_some, leb, length, none,
  not, some, suc, text_eq, true, zero, ℕ, ◌&&◌, ◌/◌, ◌==◌, ◌||◌, ◌∷◌,
}
use rif_relay.Base.Dict.{Dict, get, overlay, put}
use rif_relay.Base.Exec.{
  Error, Exec, Result, bad_address, both_hubs, err, invalid_param, lift, missing_param,
  no_config_file, no_contract, ok, pure, raise, require, unexpected_param, ◌>>=◌, ◌>>◌,
}
use rif_relay.Common.Hex.{parse_int}
use rif_relay.Common.Interactor.{ChainEnv, ChainState, ask, is_contract_deployed}
use rif_relay.Common.Versions.{VersionEvent, VersionInfo, get_version}
use rif_relay.Config.{
  Setting, Settings, a_bool, a_fraction, a_list, a_negative, a_null, a_number, a_text, setting_at,
  text_at,
}
use rif_relay.Config.Server.Defaults.{
  ParamType, boolean_type, config_params_types, number_type, same_type,
  server_default_configuration, string_type,
}
use rif_relay.Server.Registration.Events.{delay}

-- What `parseArgs` makes of the command line, with the defaults that it is given.
pub record Arguments : Type 0 where
  pub positional : List Text
  pub options : Settings

-- A configuration file that is there may be no JSON.
pub record StartEnv : Type 0 where
  pub parse_args : (args : List Text) → (strings : List Text) → (defaults : Settings) → Arguments
  pub read_config : Text → Option (Result Settings)

unfoldable pub filter_type : Dict ParamType → ParamType → List Text
filter_type [] type = []
filter_type ((k, t) ∷ config) type =
    let rest = filter_type config type in if same_type t type then k ∷ rest else rest

-- `convert [key,val] array back to an object`.
unfoldable pub entries_to_obj : List (Text × Setting) → Settings
entries_to_obj entries = overlay [] entries

unfoldable pub filter_members : Settings → Dict ParamType → Settings
filter_members env config = entries_to_obj (filter (λ e. is_some (get e.0 config)) env)

-- White space of a number's text.
is_space : ℕ → Bool
is_space c =
    (leb 9 c && leb c 13)
    || c == 32
    || c == 160
    || c == 5760
    || (leb 8192 c && leb c 8202)
    || c == 8232
    || c == 8233
    || c == 8239
    || c == 8287
    || c == 12288
    || c == 65279

skip_space : Text → Text
unfolding is_space
skip_space [] = []
skip_space (c ∷ s) = let rest = skip_space s in if is_space c then rest else c ∷ s

negated : Option ℕ → Option Setting
negated none = none
negated (some zero) = some (a_number 0)
negated (some (suc n)) = some (a_negative (suc n))

signed_number : Text → Option Setting
unfolding negated
signed_number [] = none
signed_number (c ∷ s) =
    if c == b'-'
    then negated (parse_int s)
    else Option.map a_number (if c == b'+' then parse_int s else parse_int (c ∷ s))

-- `parseInt` of a value's text. A number is its own text, so it is below 10 ^ 21, and a fraction is not
-- below 10 ^ (-6), where the text would have an exponent.
unfoldable pub number_of : Setting → Option Setting
unfolding signed_number skip_space
number_of (a_text t) = signed_number (skip_space t)
number_of (a_bool b) = none
number_of (a_number n) = some (a_number n)
number_of (a_negative n) = some (a_negative n)
number_of (a_fraction n d) = some (a_number (n / d))
number_of (a_list []) = none
number_of (a_list (t ∷ ts)) = signed_number (skip_space t)
number_of a_null = none

boolean_of : Setting → Option Bool
boolean_of (a_bool b) = some b
boolean_of (a_text t) =
    if text_eq t (codes "true")
    then some true
    else if text_eq t (codes "false")
    then some false
    else none
boolean_of v = none

-- A value in its declared type, if it has one.
unfoldable pub typed_value : ParamType → Setting → Option Setting
unfolding boolean_of
typed_value string_type v = some v
typed_value number_type v = number_of v
typed_value boolean_type v = elim (boolean_of v) [ none ↦ none | some b ↦ some (a_bool b) ]

unfoldable pub explicit_type : Text × Setting → Result (Text × Setting)
explicit_type (k, v) = elim (get k config_params_types) [
  | none ↦ err unexpected_param
  | some type ↦ elim (typed_value type v) [ none ↦ err invalid_param | some w ↦ ok (k, w) ]
]

-- `Object.entries(config).map(explicitType)`: the first one that throws ends it.
unfoldable pub explicit_types : List (Text × Setting) → Result (List (Text × Setting))
explicit_types [] = ok []
explicit_types (e ∷ es) =
    let rest = explicit_types es in
    elim (explicit_type e) [
      | err x ↦ err x
      | ok typed ↦ (elim rest [ err x ↦ err x | ok more ↦ ok (typed ∷ more) ])
    ]

module _ (start : StartEnv) where
  unfoldable pub read_config_file : Option Setting → Result Settings
  read_config_file none = ok []
  read_config_file (some (a_text name)) = elim (start.read_config name) [
    | none ↦ err no_config_file
    | some r ↦ r
  ]
  read_config_file (some v) = err no_config_file

  unfoldable pub config_file : Settings → Result Settings
  config_file options = read_config_file (setting_at (codes "config") options)

  unfoldable pub arguments_of : (args : List Text) → (env : Settings) → Arguments
  arguments_of args env =
      start.parse_args args (filter_type config_params_types string_type)
        (filter_members env config_params_types)

  unfoldable pub parse_server_config : (args : List Text) → (env : Settings) → Result Settings
  parse_server_config args env =
      let argv = arguments_of args env in
      if not (length argv.positional == 0)
      then err unexpected_param
      else elim (config_file argv.options) [
        | err x ↦ err x
        | ok file ↦ elim (explicit_types (overlay (overlay [] file) argv.options)) [
          | err x ↦ err x
          | ok entries ↦ ok (entries_to_obj entries)
        ]
      ]

-- What `resolveServerConfig` asks.
pub record ResolveEnv : Type 0 where
  pub chain : ChainEnv
  pub is_address : Text → Bool
  pub registry_events : (registry id : Text) → ℕ → Result (List VersionEvent)
  pub latest_timestamp : ℕ → Result ℕ

-- `versionRegistryDelayPeriod ?? 0`. A period below zero is none either, as no version is added after
-- the latest block.
unfoldable pub period_of : Option Setting → ℕ
period_of (some (a_number n)) = n
period_of v = 0

module _ (env : ResolveEnv) where
  abbrev of_option : {A : Type 0} → Option A → Error → Exec ChainState A
  of_option none e = raise e
  of_option (some a) e = pure a

  -- `getVersion` of the registry, whose two requests are made in order.
  unfoldable pub latest_version : (registry id : Text) → (delay : ℕ) → Exec ChainState VersionInfo
  latest_version registry id period = do
    events ← ask (env.registry_events registry id)
    now ← ask env.latest_timestamp
    lift (get_version events period now [])

  unfoldable pub registered_hub : Settings → (registry : Text) → Exec ChainState Text
  registered_hub config registry = do
    require (not (is_some (setting_at (codes "relayHubAddress") config))) both_hubs
    id ← of_option (text_at (codes "relayHubId") config) missing_param
    require (env.is_address registry) bad_address
    there ← is_contract_deployed env.chain registry
    require there no_contract
    found ← latest_version registry id (period_of (get (codes "versionRegistryDelayPeriod") config))
    require (env.is_address found.value) bad_address
    pure found.value

  unfoldable pub given_hub : Option Setting → Exec ChainState Text
  given_hub none = raise missing_param
  given_hub (some (a_text hub)) = do require (env.is_address hub) bad_address; pure hub
  given_hub (some v) = raise bad_address

  unfoldable pub hub_from : Settings → (registry : Option Setting) → Exec ChainState Text
  hub_from config (some (a_text registry)) = registered_hub config registry
  hub_from config (some v) = raise bad_address
  hub_from config none = given_hub (setting_at (codes "relayHubAddress") config)

  unfoldable pub resolve_server_config : Settings → Exec ChainState Settings
  resolve_server_config config = do
    hub ← hub_from config (setting_at (codes "versionRegistryAddress") config)
    there ← is_contract_deployed env.chain hub
    require there no_contract
    require (is_some (setting_at (codes "url") config)) missing_param
    require (is_some (setting_at (codes "workdir") config)) missing_param
    pure (overlay server_default_configuration (put (codes "relayHubAddress") (a_text hub) config))

unfoldable pub configure_server : Settings → Settings
configure_server partial = overlay server_default_configuration partial
