-- ===== src/Common/Interactor/Validation.antt =====
-- src/common/ContractInteractor.ts: estimates of gas, and the local calls that tell whether a request
-- would be accepted.
use rif_relay.Base.{
  Bool, Option, Text, false, if◌then◌else◌, leb, none, not, some, true, ℕ, ◌*◌, ◌/◌, ◌==◌,
}
use rif_relay.Base.Exec.{
  Error, Exec, Result, catch, err, gets, invalid_number, lift, no_hub, not_initialized, ok, pure,
  require, ◌>>=◌, ◌>>◌,
}
use rif_relay.Common.Constants.{estimated_gas_correction_factor}
use rif_relay.Common.Gas.{internal_call_cost}
use rif_relay.Common.Interactor.{
  ChainEnv, ChainState, EstimateGasParams, as_number, ask, is_zero_address,
}
use rif_relay.Common.Requests.{DeployTransactionRequest, RelayRequest, RelayTransactionRequest}
use rif_relay.Common.Utils.{Address}

-- `toBN` of a number's text throws where it is `NaN`.
abbrev to_bn : Option ℕ → Result ℕ
to_bn none = err invalid_number
to_bn (some n) = ok n

-- Why a call is not accepted; `decodeRevertReason` leaves these messages as they are.
pub data Reason : Type 0 where
  no_reason : Reason
  no_balance : (worker : Address) → Reason
  in_verifier : Error → Reason
  in_client : Error → Reason
  returned : Text → Reason

pub record Acceptance : Type 0 where
  pub verifier_accepted : Bool
  pub reverted : Bool
  pub reverted_in_destination : Bool
  pub reason : Reason

abbrev pub refused : Reason → Acceptance
refused reason = record {
  verifier_accepted = false;
  reverted = false;
  reverted_in_destination = false;
  reason = reason;
}

abbrev pub failed_call : Error → Acceptance
failed_call e = record {
  verifier_accepted = true;
  reverted = true;
  reverted_in_destination = false;
  reason = in_client e;
}

-- The local call is made only after the verifier's; either one's throw is caught.
unfoldable pub after_verifier :
    Option Error → Exec ChainState Acceptance → Exec ChainState Acceptance
after_verifier (some e) call = pure (refused (in_verifier e))
after_verifier none call = catch call (λ e. pure (failed_call e))

module _ (env : ChainEnv) where
  -- The call of the hub by the worker.
  abbrev pub relay_params : RelayRequest → (signature : Text) → EstimateGasParams
  relay_params r signature = record {
    from = r.relay_data.relay_worker;
    to = r.request.relay_hub;
    gas_price = as_number r.relay_data.gas_price;
    payload = env.encode_relay_call r signature;
  }

  unfoldable pub estimate_relay_transaction_max_possible_gas :
      RelayRequest → (signature : Text) → Exec ChainState ℕ
  estimate_relay_transaction_max_possible_gas r signature = do
    has_hub ← gets (λ s. s.has_hub)
    require has_hub not_initialized
    gas ← ask (env.estimate_gas (relay_params r signature))
    pure (gas * estimated_gas_correction_factor)

  unfoldable pub estimate_relay_transaction_max_possible_gas_with_transaction_request :
      RelayTransactionRequest → Exec ChainState ℕ
  estimate_relay_transaction_max_possible_gas_with_transaction_request r = do
    require (not (is_zero_address r.metadata.relay_hub_address)) no_hub
    _ ← ask (env.contract_at r.metadata.relay_hub_address)
    gas ← ask (env.estimate_relay_call r)
    pure (gas * estimated_gas_correction_factor)

  unfoldable pub wallet_factory_estimate_gas_of_deploy_call :
      DeployTransactionRequest → Exec ChainState ℕ
  wallet_factory_estimate_gas_of_deploy_call r = do
    require (not (is_zero_address r.metadata.relay_hub_address)) no_hub
    _ ← ask (env.contract_at r.metadata.relay_hub_address)
    ask (env.estimate_deploy_call r)

  unfoldable pub estimate_destination_contract_call_gas :
      EstimateGasParams → (add_cushion : Bool) → Exec ChainState ℕ
  estimate_destination_contract_call_gas params add_cushion = do
    estimated ← ask (env.estimate_gas params)
    let cost = internal_call_cost estimated
    pure (if add_cushion then cost * estimated_gas_correction_factor else cost)

  -- The worker's balance in units of gas covers the estimate, or the limit is 0.
  abbrev covered : (balance price estimate : ℕ) → ℕ
  covered balance price estimate = if leb estimate (balance / price) then estimate else 0

  unfoldable pub get_max_viewable_relay_gas_limit :
      RelayRequest → (signature : Text) → Exec ChainState ℕ
  get_max_viewable_relay_gas_limit r signature = do
    price ← lift (to_bn r.relay_data.gas_price)
    if price == 0 then pure 0 else (do
      estimate ← estimate_relay_transaction_max_possible_gas r signature
      balance ← ask (env.balance r.relay_data.relay_worker)
      pure (covered balance price estimate))

  unfoldable pub get_max_viewable_deploy_gas_limit : DeployTransactionRequest → Exec ChainState ℕ
  get_max_viewable_deploy_gas_limit r = do
    price ← lift (to_bn r.relay_request.relay_data.gas_price)
    if price == 0 then pure 0 else (do
      estimate ← wallet_factory_estimate_gas_of_deploy_call r
      balance ← ask (env.balance r.relay_request.relay_data.relay_worker)
      pure (covered balance price estimate))

  -- A call of a verifier or a hub that is not bound throws as a rejected one does.
  abbrev bound : {A : Type 0} → (ChainState → Bool) → Exec ChainState A → Exec ChainState A
  bound has m = do there ← gets has; require there not_initialized; m

  unfoldable pub verify_relay : RelayRequest → (signature : Text) → Exec ChainState (Unit {0})
  verify_relay r signature =
      bound (λ s. s.has_relay_verifier) (ask (env.verify_relayed_call r signature))

  unfoldable pub call_relay :
      RelayRequest → (signature : Text) → (gas : ℕ) → Exec ChainState Acceptance
  call_relay r signature gas = do
    success ← bound (λ s. s.has_hub) (ask (env.relay_call r signature gas))
    pure (record {
      verifier_accepted = true;
      reverted = false;
      reverted_in_destination = not success;
      reason = no_reason;
    })

  unfoldable pub validate_accept_relay_call :
      RelayRequest → (signature : Text) → Exec ChainState Acceptance
  validate_accept_relay_call r signature = do
    gas ← get_max_viewable_relay_gas_limit r signature
    if gas == 0 then pure (refused (no_balance r.relay_data.relay_worker)) else (do
      verified ← catch (verify_relay r signature >> pure none) (λ e. pure (some e))
      after_verifier verified (call_relay r signature gas))

  unfoldable pub verify_deploy : DeployTransactionRequest → Exec ChainState (Unit {0})
  verify_deploy r =
      bound (λ s. s.has_deploy_verifier)
        (ask (env.verify_deploy_call r.relay_request r.metadata.signature))

  unfoldable pub call_deploy : DeployTransactionRequest → (gas : ℕ) → Exec ChainState Acceptance
  call_deploy r gas = do
    value ← bound (λ s. s.has_hub) (ask (env.deploy_call r.relay_request r.metadata.signature gas))
    pure (record {
      verifier_accepted = true;
      reverted = false;
      reverted_in_destination = false;
      reason = returned value;
    })

  unfoldable pub validate_accept_deploy_call : DeployTransactionRequest → Exec ChainState Acceptance
  validate_accept_deploy_call r = do
    gas ← get_max_viewable_deploy_gas_limit r
    if gas == 0 then pure (refused (no_balance r.relay_request.relay_data.relay_worker)) else (do
      verified ← catch (verify_deploy r >> pure none) (λ e. pure (some e))
      after_verifier verified (call_deploy r gas))
