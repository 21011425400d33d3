-- ===== src/Server/Relay/Requests.antt =====
-- src/relayserver/RelayServer.ts: what a request goes through until its transaction is sent.
pub mod Safety
use rif_relay.Base.{
  Option, holds, if◌then◌else◌, ltb, none, not, or_else, some, text_eq, to_lower, ℕ, ◌*◌, ◌+◌, ◌/◌,
}
use rif_relay.Base.Exec.{
  Error, Exec, Result, err, gas_deviation, gets, invalid_number, low_gas_price, low_max_nonce,
  not_ready, ok, pure, raise, require, unknown_verifier, untrusted_verifier, verifier_failed,
  view_call_reverted, wrong_hub, wrong_shape, wrong_worker, ◌>>=◌, ◌>>◌,
}
use rif_relay.Server.Registration.{on_tx}
use rif_relay.Server.Relay.{
  Request, ServerEnv, ServerState, is_ready, is_trusted_verifier, on_registration, query,
}
use rif_relay.Server.Relay.Replenish.{replenish_strategy}
use rif_relay.Server.Stored.{relay_call}
use rif_relay.Server.Transactions.{SendDetails, SignedDetails, poll_nonce, send_transaction}

-- `Math.ceil(gas * (1 + MAX_ESTIMATED_GAS_DEVIATION))`, as an exact fraction.
abbrev max_agreed : ℕ → ℕ
max_agreed gas = (gas * 12 + 9) / 10

module _ (env : ServerEnv) where
  -- A price that is `NaN` is not below any other.
  unfoldable pub validate_input : Request → Exec ServerState (Unit {0})
  validate_input req = do
    require (text_eq (to_lower req.relay_hub_address) (to_lower env.hub_address)) wrong_hub
    require (text_eq (to_lower req.relay_worker) (to_lower env.registration.worker_address))
        wrong_worker
    gas_price ← gets (λ s. s.gas_price)
    require (not (holds (λ p. ltb p gas_price) req.gas_price)) low_gas_price

  unfoldable pub validate_max_nonce : ℕ → Exec ServerState (Unit {0})
  validate_max_nonce max_nonce = do
    nonce ←
        on_registration (on_tx (poll_nonce env.registration.tx_env env.registration.worker_address))
    require (not (holds (λ n. ltb max_nonce n) nonce)) low_max_nonce

  -- The `catch` of each try block: any failure becomes the given error.
  abbrev or_fail {ℓ} : {A : Type ℓ} → Error → Result A → Result A
  or_fail e (ok a) = ok a
  or_fail e (err _) = err e

  -- `toBN` throws on a text that is no number.
  abbrev agreed_gas : Option ℕ → Exec ServerState ℕ
  agreed_gas none = raise invalid_number
  agreed_gas (some gas) = pure gas

  estimate_request_gas : Request → Exec ServerState ℕ
  estimate_request_gas req =
      if req.is_deploy
      then query (env.estimate_deploy req)
      else (query (env.estimate_destination req) >>= λ cost. agreed_gas req.gas >>= λ gas.
          require (not (ltb (max_agreed gas) cost)) gas_deviation >> query (env.estimate_relay req))

  unfoldable pub validate_request_with_verifier : Request → Exec ServerState ℕ
  unfolding estimate_request_gas
  validate_request_with_verifier req = do
    trusted ← gets (is_trusted_verifier req.call_verifier)
    require trusted untrusted_verifier
    query (λ t. or_fail unknown_verifier (env.create_verifier req t))
    gas ← estimate_request_gas req
    query (λ t. or_fail verifier_failed (env.verify req t))
    pure gas

  unfoldable pub validate_view_call_succeeds : Request → ℕ → Exec ServerState (Unit {0})
  validate_view_call_succeeds req gas =
      query (λ t. or_fail view_call_reverted (env.view_call req gas t))

  relay_details : Request → (gas block : ℕ) → SendDetails
  relay_details req gas block = record {
    signer = env.registration.worker_address;
    action = relay_call;
    encoded_call = some (env.encode req);
    destination = req.relay_hub_address;
    value = none;
    gas_limit = gas;
    gas_price = some (or_else req.gas_price env.nan_price);
    creation_block = block;
  }

  -- Everything before the transaction is sent; the result is what to send.
  unfoldable pub validate : Request → Exec ServerState SendDetails
  unfolding relay_details
  validate req = do
    is_ready_now ← gets (is_ready env)
    require is_ready_now not_ready
    require (env.has_shape req) wrong_shape
    validate_input req
    validate_max_nonce req.relay_max_nonce
    gas ← validate_request_with_verifier req
    validate_view_call_succeeds req gas
    block ← query env.registration.tx_env.node.block_number
    pure (relay_details req gas block)

  unfoldable pub create_relay_transaction : Request → Exec ServerState SignedDetails
  create_relay_transaction req = do
    details ← validate req
    sent ← on_registration (on_tx (send_transaction env.registration.tx_env details))
    replenish_strategy env details.creation_block
    pure sent
