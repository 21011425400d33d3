-- ===== src/Common/Interactor.antt =====
-- src/common/ContractInteractor.ts and src/common/VersionsManager.ts as the client uses them. The
-- network is a record of answers by the number of requests made before; web3, the contracts'
-- methods, the ABI encoder and semver are parameters.
pub mod Validation
pub mod Accepts
pub mod Receipts
use rif_relay.Base.{
  Bool, List, Option, Text, [], codes, if◌then◌else◌, is_some, not, some, text_eq, true, ℕ, ◌&&◌,
  ◌++◌, ◌+◌, ◌==◌, ◌||◌, ◌∷◌,
}
use rif_relay.Base.Exec.{
  Exec, Result, already_initialized, catch, gets, modify, pure, require, unsupported_hub, ◌>>=◌,
  ◌>>◌,
}
use rif_relay.Common.Constants.{zero_address}
use rif_relay.Common.Requests.{
  DeployRequest, DeployTransactionRequest, RelayRequest, RelayTransactionRequest,
}
use rif_relay.Common.Utils.{Address}

-- A gas price as a request to the node carries it.
pub data CallPrice : Type 0 where
  not_given : CallPrice
  as_hex : Text → CallPrice
  as_number : Option ℕ → CallPrice

-- `EstimateGasParams`.
pub record EstimateGasParams : Type 0 where
  pub from : Address
  pub to : Address
  pub gas_price : CallPrice
  pub payload : Text

-- The logs as they come, which are decoded where they are read.
pub record TransactionReceipt : Type 0 where
  pub logs : Option (List Text)

-- The configuration, and the answers.
pub record ChainEnv : Type 0 where
  pub relay_hub_address : Address
  pub relay_verifier_address : Address
  pub deploy_verifier_address : Address
  pub component_version : Text
  pub satisfies : (version range : Text) → Bool
  pub contract_at : Address → ℕ → Result (Unit {0})
  pub hub_version : ℕ → Result Text
  pub net_chain_id : ℕ → Result ℕ
  pub net_id : ℕ → Result ℕ
  pub net_type : ℕ → Result Text
  pub forwarder_nonce : Address → ℕ → Result ℕ
  pub factory_nonce : (factory from : Address) → ℕ → Result ℕ
  pub verify_relayed_call : RelayRequest → (signature : Text) → ℕ → Result (Unit {0})
  pub verify_deploy_call : DeployRequest → (signature : Text) → ℕ → Result (Unit {0})
  pub relay_call : RelayRequest → (signature : Text) → (gas : ℕ) → ℕ → Result Bool
  pub deploy_call : DeployRequest → (signature : Text) → (gas : ℕ) → ℕ → Result Text
  pub encode_relay_call : RelayRequest → (signature : Text) → Text
  pub encode_deploy_call : DeployRequest → (signature : Text) → Text
  pub encode_transfer : (recipient : Address) → (amount : ℕ) → Text
  pub estimate_relay_call : RelayTransactionRequest → ℕ → Result ℕ
  pub estimate_deploy_call : DeployTransactionRequest → ℕ → Result ℕ
  pub estimate_gas : EstimateGasParams → ℕ → Result ℕ
  pub gas_price : ℕ → Result ℕ
  pub balance : Address → ℕ → Result ℕ
  pub transaction_count : Address → ℕ → Result ℕ
  pub code : Address → ℕ → Result Text
  pub receipt : Text → ℕ → Result (Option TransactionReceipt)
  pub transaction_found : Text → ℕ → Result Bool
  pub send_signed : Text → ℕ → Result (Unit {0})

-- `getRawTxOptions`: the chain's name, id and network.
pub record RawTxOptions : Type 0 where
  pub chain : Text
  pub chain_id : ℕ
  pub network_id : ℕ

-- The number of requests made, what `init` sets, the raw transactions handed over to the node and
-- the time slept in milliseconds.
pub record ChainState : Type 0 where
  pub time : ℕ
  pub has_hub : Bool
  pub has_relay_verifier : Bool
  pub has_deploy_verifier : Bool
  pub raw_tx_options : Option RawTxOptions
  pub broadcasts : List Text
  pub slept : ℕ

abbrev pub ask : {A : Type 0} → (ℕ → Result A) → Exec ChainState A
ask r s = (r s.time, record s { time = s.time + 1 })

unfoldable pub get_raw_tx_options : (chain_id network_id : ℕ) → (chain : Text) → RawTxOptions
get_raw_tx_options chain_id network_id chain = record {
  chain =
      if text_eq chain (codes "main") || text_eq chain (codes "private")
      then codes "mainnet"
      else chain;
  chain_id = chain_id;
  network_id = network_id;
}

-- `version.replace('_', '-')`: the first one.
replace_first : (a b : ℕ) → Text → Text
replace_first a b [] = []
replace_first a b (c ∷ s) = if c == a then b ∷ s else c ∷ replace_first a b s

abbrev pub is_zero_address : Address → Bool
is_zero_address a = text_eq a zero_address

module _ (env : ChainEnv) where
  unfoldable pub is_minor_same_or_newer : Text → Bool
  unfolding replace_first
  is_minor_same_or_newer version =
      env.satisfies (replace_first b'_' b'-' version) (codes "^" ++ env.component_version)

  unfoldable pub validate_version : Text → Exec ChainState (Unit {0})
  validate_version version = require (is_minor_same_or_newer version) unsupported_hub

  unfoldable pub validate_compatibility : Exec ChainState (Unit {0})
  validate_compatibility =
      if is_zero_address env.relay_hub_address
      then pure tt
      else (do version ← ask env.hub_version; validate_version version)

  -- A contract is bound where its address is configured.
  unfoldable pub bind_contract : Address → (ChainState → ChainState) → Exec ChainState (Unit {0})
  bind_contract a note =
      if is_zero_address a then pure tt else (do _ ← ask (env.contract_at a); modify note)

  unfoldable pub initialize_contracts : Exec ChainState (Unit {0})
  unfolding bind_contract
  initialize_contracts = do
    _ ← bind_contract env.relay_hub_address (λ s. record s { has_hub = true })
    _ ← bind_contract env.relay_verifier_address (λ s. record s { has_relay_verifier = true })
    bind_contract env.deploy_verifier_address (λ s. record s { has_deploy_verifier = true })

  unfoldable pub is_initialized : ChainState → Bool
  is_initialized s = is_some s.raw_tx_options

  -- An unsupported hub is only a warning.
  unfoldable pub init : Exec ChainState (Unit {0})
  init = do
    initialized ← gets is_initialized
    require (not initialized) already_initialized
    initialize_contracts
    catch validate_compatibility (λ e. pure tt)
    chain ← ask env.net_type
    chain_id ← ask env.net_chain_id
    network_id ← ask env.net_id
    network_type ← ask env.net_type
    modify (λ s. record s { raw_tx_options = some (get_raw_tx_options chain_id network_id chain) })

  unfoldable pub get_sender_nonce : Address → Exec ChainState ℕ
  get_sender_nonce wallet = do _ ← ask (env.contract_at wallet); ask (env.forwarder_nonce wallet)

  unfoldable pub get_factory_nonce : (factory from : Address) → Exec ChainState ℕ
  get_factory_nonce factory from = do
    _ ← ask (env.contract_at factory)
    ask (env.factory_nonce factory from)

  -- RSKJ answers `0x00` where there is no contract.
  unfoldable pub is_contract_deployed : Address → Exec ChainState Bool
  is_contract_deployed a = do
    code ← ask (env.code a)
    pure (not (text_eq code (codes "0x")) && not (text_eq code (codes "0x00")))

  unfoldable pub send_signed_transaction : Text → Exec ChainState (Unit {0})
  send_signed_transaction raw s = (
    env.send_signed raw s.time,
    record s { time = s.time + 1; broadcasts = s.broadcasts ++ raw ∷ [] },
  )
