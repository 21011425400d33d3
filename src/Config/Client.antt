-- ===== src/Config/Client.antt =====
-- src/relayclient/Configurator.ts and src/common/Environments.ts.
pub mod Resolved
pub mod Parts
use rif_relay.Base.{
  Bool, Option, Text, [], codes, false, if◌then◌else◌, is_some, none, not, or_else, some,
  starts_with, true, ℕ, ◌==◌, ◌||◌, ◌∷◌,
}
use rif_relay.Base.Dict.{Dict, overlay}
use rif_relay.Base.Exec.{Exec, no_override, not_provider, pure, require, ◌>>=◌, ◌>>◌}
use rif_relay.Common.Interactor.{ChainEnv, ChainState, ask}
use rif_relay.Config.{Setting, Settings, a_bool, a_list, a_number, a_text, setting_at}

pub record RelayHubConfiguration : Type 0 where
  pub max_worker_count : ℕ
  pub minimum_stake : Text
  pub minimum_unstake_delay : ℕ
  pub minimum_entry_deposit_value : Text

pub record Environment : Type 0 where
  pub environment_chain_id : ℕ
  pub mintxgascost : ℕ
  pub relay_hub_configuration : RelayHubConfiguration

default_relay_hub_configuration : RelayHubConfiguration
default_relay_hub_configuration = record {
  max_worker_count = 10;
  minimum_stake = codes "1000000000000000000";
  minimum_unstake_delay = 1000;
  minimum_entry_deposit_value = codes "1000000000000000000";
}

-- `environments.rsk`, the default environment.
unfoldable pub default_environment : Environment
unfolding default_relay_hub_configuration
default_environment = record {
  environment_chain_id = 33;
  mintxgascost = 21000;
  relay_hub_configuration = default_relay_hub_configuration;
}

-- `environments[name]`.
unfoldable pub environments : Dict Environment
unfolding default_relay_hub_configuration default_environment
environments =
    (
      codes "istanbul",
      record {
        environment_chain_id = 1;
        mintxgascost = 21000;
        relay_hub_configuration = default_relay_hub_configuration;
      },
    )
    ∷ (
      codes "constantinople",
      record {
        environment_chain_id = 1;
        mintxgascost = 21000;
        relay_hub_configuration = default_relay_hub_configuration;
      },
    )
    ∷ (codes "rsk", default_environment)
    ∷ []

unfoldable pub get_environment : (network_name : Text) → Environment
get_environment network_name =
    if starts_with (codes "rsk") network_name then default_environment else default_environment

unfoldable pub is_rsk : Environment → Bool
is_rsk environment = environment.environment_chain_id == 33

abbrev zero_text : Setting
zero_text = a_text (codes "0x0000000000000000000000000000000000000000")

unfoldable pub default_enveloping_config : Settings
unfolding default_environment
default_enveloping_config =
    (codes "preferredRelays", a_list [])
    ∷ (codes "onlyPreferredRelays", a_bool false)
    ∷ (codes "relayLookupWindowParts", a_number 1)
    ∷ (codes "relayLookupWindowBlocks", a_number 60000)
    ∷ (codes "gasPriceFactorPercent", a_number 0)
    ∷ (codes "minGasPrice", a_number 60000000)
    ∷ (codes "maxRelayNonceGap", a_number 3)
    ∷ (codes "sliceSize", a_number 3)
    ∷ (codes "relayTimeoutGrace", a_number 1800)
    ∷ (codes "methodSuffix", a_text [])
    ∷ (codes "jsonStringifyRequest", a_bool false)
    ∷ (codes "chainId", a_number default_environment.environment_chain_id)
    ∷ (codes "relayHubAddress", zero_text)
    ∷ (codes "deployVerifierAddress", zero_text)
    ∷ (codes "relayVerifierAddress", zero_text)
    ∷ (codes "forwarderAddress", zero_text)
    ∷ (codes "smartWalletFactoryAddress", zero_text)
    ∷ (codes "logLevel", a_number 0)
    ∷ (codes "clientId", a_text (codes "1"))
    ∷ []

unfoldable pub configure_client : Settings → Settings
configure_client partial = overlay default_enveloping_config partial

-- What `resolveConfiguration` reads of a provider.
pub record Web3Provider : Type 0 where
  pub has_send : Bool
  pub has_send_async : Bool
  pub is_metamask : Bool

-- A default for Metamask, or for any other provider.
unfoldable pub metamask_default : Web3Provider → (metamask other : Setting) → Setting
metamask_default provider metamask other = if provider.is_metamask then metamask else other

module _ (env : ChainEnv) where
  -- `partialConfig.chainId ?? getAsyncChainId()`.
  unfoldable pub resolved_chain_id : Option Setting → Exec ChainState Setting
  resolved_chain_id none = do n ← ask env.net_chain_id; pure (a_number n)
  resolved_chain_id (some v) = pure v

  unfoldable pub resolve_configuration : Web3Provider → Settings → Exec ChainState Settings
  resolve_configuration provider config = do
    require (provider.has_send || provider.has_send_async) not_provider
    require (not (is_some (setting_at (codes "relayHubAddress") config))) no_override
    chain_id ← resolved_chain_id (setting_at (codes "chainId") config)
    pure (
        overlay (overlay default_enveloping_config config) (
          (
            codes "forwarderAddress",
            or_else (setting_at (codes "forwarderAddress") config) (a_text []),
          )
          ∷ (codes "chainId", chain_id)
          ∷ (
            codes "methodSuffix",
            or_else (setting_at (codes "methodSuffix") config)
                (metamask_default provider (a_text (codes "_v4")) (a_text [])),
          )
          ∷ (
            codes "jsonStringifyRequest",
            or_else (setting_at (codes "jsonStringifyRequest") config)
                (metamask_default provider (a_bool true) (a_bool false)),
          )
          ∷ []))
