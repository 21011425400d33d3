-- ===== src/Config/Server/Defaults.antt =====
-- src/relayserver/ServerConfigParams.ts: the declared types and the defaults.
use rif_relay.Base.{Bool, [], codes, false, true, ◌∷◌}
use rif_relay.Base.Dict.{Dict}
use rif_relay.Common.Constants.{zero_address}
use rif_relay.Config.{Settings, a_bool, a_fraction, a_list, a_number, a_text}

pub data ParamType : Type 0 where
  string_type number_type boolean_type : ParamType

unfoldable pub same_type : ParamType → ParamType → Bool
same_type string_type string_type = true
same_type number_type number_type = true
same_type boolean_type boolean_type = true
same_type _ _ = false

unfoldable pub config_params_types : Dict ParamType
config_params_types =
    (codes "config", string_type)
    ∷ (codes "url", string_type)
    ∷ (codes "port", number_type)
    ∷ (codes "versionRegistryAddress", string_type)
    ∷ (codes "versionRegistryDelayPeriod", number_type)
    ∷ (codes "relayHubId", string_type)
    ∷ (codes "relayHubAddress", string_type)
    ∷ (codes "gasPriceFactor", number_type)
    ∷ (codes "rskNodeUrl", string_type)
    ∷ (codes "workdir", string_type)
    ∷ (codes "checkInterval", number_type)
    ∷ (codes "readyTimeout", number_type)
    ∷ (codes "devMode", boolean_type)
    ∷ (codes "customReplenish", boolean_type)
    ∷ (codes "logLevel", number_type)
    ∷ (codes "registrationBlockRate", number_type)
    ∷ (codes "alertedBlockDelay", number_type)
    ∷ (codes "workerMinBalance", number_type)
    ∷ (codes "workerTargetBalance", number_type)
    ∷ (codes "managerMinBalance", number_type)
    ∷ (codes "managerTargetBalance", number_type)
    ∷ (codes "minHubWithdrawalBalance", number_type)
    ∷ (codes "defaultGasLimit", number_type)
    ∷ (codes "trustedVerifiers", string_type)
    ∷ (codes "relayVerifierAddress", string_type)
    ∷ (codes "deployVerifierAddress", string_type)
    ∷ []

unfoldable pub server_default_configuration : Settings
server_default_configuration =
    (codes "alertedBlockDelay", a_number 0)
    ∷ (codes "minAlertedDelayMS", a_number 0)
    ∷ (codes "maxAlertedDelayMS", a_number 0)
    ∷ (codes "relayHubAddress", a_text zero_address)
    ∷ (codes "relayVerifierAddress", a_text zero_address)
    ∷ (codes "deployVerifierAddress", a_text zero_address)
    ∷ (codes "trustedVerifiers", a_list [])
    ∷ (codes "gasPriceFactor", a_number 1)
    ∷ (codes "registrationBlockRate", a_number 0)
    ∷ (codes "workerMinBalance", a_number 1000000000000000)
    ∷ (codes "workerTargetBalance", a_number 3000000000000000)
    ∷ (codes "managerMinBalance", a_number 1000000000000000)
    ∷ (codes "managerMinStake", a_text (codes "1"))
    ∷ (codes "managerTargetBalance", a_number 3000000000000000)
    ∷ (codes "minHubWithdrawalBalance", a_number 1000000000000000)
    ∷ (codes "checkInterval", a_number 10000)
    ∷ (codes "readyTimeout", a_number 30000)
    ∷ (codes "devMode", a_bool false)
    ∷ (codes "customReplenish", a_bool false)
    ∷ (codes "logLevel", a_number 1)
    ∷ (codes "url", a_text (codes "http://localhost:8090"))
    ∷ (codes "rskNodeUrl", a_text (codes ""))
    ∷ (codes "port", a_number 0)
    ∷ (codes "versionRegistryAddress", a_text zero_address)
    ∷ (codes "workdir", a_text (codes ""))
    ∷ (codes "refreshStateTimeoutBlocks", a_number 5)
    ∷ (codes "pendingTransactionTimeoutBlocks", a_number 30)
    ∷ (codes "successfulRoundsForReady", a_number 3)
    ∷ (codes "confirmationsNeeded", a_number 12)
    ∷ (codes "retryGasPriceFactor", a_fraction 12 10)
    ∷ (codes "defaultGasLimit", a_number 500000)
    ∷ (codes "maxGasPrice", a_text (codes "100000000000"))
    ∷ (codes "estimateGasFactor", a_fraction 12 10)
    ∷ []
