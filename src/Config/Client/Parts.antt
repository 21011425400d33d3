-- ===== src/Config/Client/Parts.antt =====
-- src/relayclient/Configurator.ts: the parts that a client is made of.
pub mod Wired
use rif_relay.Base.{
  Bool, Option, Text, [], codes, false, filter, if◌then◌else◌, is_some, none, or_else, some, true,
  ℕ, ◌∷◌,
}
use rif_relay.Base.Dict.{Dict, get}
use rif_relay.Base.Exec.{Result, err, no_accounts, no_interactor, ok, unknown_override}
use rif_relay.Config.{Setting, Settings, setting_at}

-- The parts of a client: an object that is passed, or one that is made here of others.
pub data Dependency : Type 0 where
  passed_object : ℕ → Dependency
  the_config : Settings → Dependency
  new_contract_interactor : Settings → Dependency
  new_account_manager : (chain_id : Setting) → Settings → Dependency
  new_http_client : Settings → Dependency
  gas_price_ping_filter empty_filter default_relay_score : Dependency
  new_known_relays_manager :
      (interactor : Dependency) → Settings → (filter : Dependency) → Dependency
  new_transaction_validator : (interactor : Dependency) → Settings → Dependency

-- An override may be null.
abbrev pub Overrides : Type 0
Overrides = Dict (Option Dependency)

-- `overrideDependencies?.k`.
unfoldable pub override_at : Text → Overrides → Option Dependency
override_at k overrides = elim (get k overrides) [ none ↦ none | some d ↦ d ]

-- The interactor, which needs a provider unless it is passed.
unfoldable pub interactor_of :
    Settings → (has_provider : Bool) → Option Dependency → Result Dependency
interactor_of config has_provider (some d) = ok d
interactor_of config true none = ok (new_contract_interactor config)
interactor_of config false none = err no_interactor

-- `config.chainId ?? contractInteractor.getChainId()`, where the interactor may know none yet.
unfoldable pub chain_id_for : Settings → Result Setting → Result Setting
chain_id_for config known = elim (setting_at (codes "chainId") config) [
  | none ↦ known
  | some v ↦ ok v
]

unfoldable pub account_manager_of :
    Settings → (has_provider : Bool) → Result Setting → Option Dependency → Result Dependency
account_manager_of config has_provider known (some d) = ok d
account_manager_of config true known none = elim (chain_id_for config known) [
  | err e ↦ err e
  | ok id ↦ ok (new_account_manager id config)
]
account_manager_of config false known none = err no_accounts

-- What is returned, by name.
unfoldable pub wired : Settings → Overrides → (interactor accounts : Dependency) → Dict Dependency
wired config overrides interactor accounts =
    let relay_filter = or_else (override_at (codes "relayFilter") overrides) empty_filter in
    (
      codes "httpClient",
      or_else (override_at (codes "httpClient") overrides) (new_http_client config),
    )
    ∷ (codes "contractInteractor", interactor)
    ∷ (
      codes "knownRelaysManager",
      or_else (override_at (codes "knownRelaysManager") overrides)
          (new_known_relays_manager interactor config relay_filter),
    )
    ∷ (codes "accountManager", accounts)
    ∷ (
      codes "transactionValidator",
      or_else (override_at (codes "transactionValidator") overrides)
          (new_transaction_validator interactor config),
    )
    ∷ (
      codes "pingFilter",
      or_else (override_at (codes "pingFilter") overrides) gas_price_ping_filter,
    )
    ∷ (codes "relayFilter", relay_filter)
    ∷ (
      codes "scoreCalculator",
      or_else (override_at (codes "scoreCalculator") overrides) default_relay_score,
    )
    ∷ (codes "config", the_config config)
    ∷ []

-- `overrides must not contain unknown fields`.
unfoldable pub are_known : Dict Dependency → Overrides → Bool
are_known ret [] = true
are_known ret ((k, d) ∷ overrides) =
    let rest = are_known ret overrides in if is_some (get k ret) then rest else false

-- `known_chain` is what `getChainId` of an interactor returns.
unfoldable pub get_dependencies :
    (known_chain : Dependency → Result Setting)
    → Settings
    → (has_provider : Bool) → Overrides
    → Result (Dict Dependency)
get_dependencies known_chain config has_provider overrides =
    elim (interactor_of config has_provider (override_at (codes "contractInteractor") overrides)) [
      | err e ↦ err e
      | ok interactor ↦
          elim (account_manager_of config has_provider (known_chain interactor)
            (override_at (codes "accountManager") overrides)) [
              | err e ↦ err e
              | ok accounts ↦
                  let ret = wired config overrides interactor accounts in
                  if are_known ret overrides then ok ret else err unknown_override
            ]
    ]
