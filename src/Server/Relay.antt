-- ===== src/Server/Relay.antt =====
-- src/relayserver/RelayServer.ts: the state of a server, and the state machine of its ready flag, its
-- alerts and its trusted verifiers. Log lines, delays and the version are left out.
pub mod Replenish
pub mod Requests
pub mod Worker
use rif_relay.Server.Registration
use rif_relay.Base.{
  Bool, List, Option, Text, [], any, if◌then◌else◌, leb, ltb, not, text_eq, to_lower, true, ℕ, ◌&&◌,
  ◌++◌, ◌+◌, ◌==◌, ◌||◌, ◌∷◌,
}
use rif_relay.Base.Exec.{
  Exec, Result, already_initialized, gets, modify, no_gas_price, no_hub, require, ◌>>=◌, ◌>>◌,
}
use rif_relay.Common.Amount.{AmountRequired}
use rif_relay.Common.Constants.{zero_address}
use rif_relay.Common.Events.{EventData, transaction_rejected_by_recipient}
use rif_relay.Common.Utils.{Address}
use rif_relay.Server.Registration.{RegistrationEnv, RegistrationState}

-- The parts of a `RelayTransactionRequest` or `DeployTransactionRequest` that the server reads. The
-- price and the gas are texts of any form, and none is a text of no number.
pub record Request : Type 0 where
  pub is_deploy : Bool
  pub relay_hub_address : Address
  pub relay_max_nonce : ℕ
  pub relay_worker : Address
  pub call_verifier : Address
  pub gas_price : Option ℕ
  pub gas : Option ℕ

pub record ServerConfig : Type 0 where
  pub trusted_verifiers : List Address
  pub relay_verifier_address : Address
  pub deploy_verifier_address : Address
  pub worker_min_balance : ℕ
  pub worker_target_balance : ℕ
  pub manager_min_balance : ℕ
  pub manager_target_balance : ℕ
  pub custom_replenish : Bool
  pub registration_block_rate : ℕ
  pub refresh_state_timeout_blocks : ℕ
  pub successful_rounds_for_ready : ℕ
  pub alerted_block_delay : ℕ
  pub with_factor : ℕ → ℕ

-- `encode` and `has_shape` stand for the ABI encoder and for `ow`; the others are requests to the
-- network. `hub_address` is the deployed hub's, and `nan_price` is the price that ethereumjs-tx makes
-- of `NaN`.
pub record ServerEnv : Type 0 where
  pub registration : RegistrationEnv
  pub config : ServerConfig
  pub hub_address : Address
  pub has_shape : Request → Bool
  pub encode : Request → Text
  pub nan_price : ℕ
  pub code_length : ℕ → Result ℕ
  pub create_verifier : Request → ℕ → Result (Unit {0})
  pub estimate_destination : Request → ℕ → Result ℕ
  pub estimate_deploy : Request → ℕ → Result ℕ
  pub estimate_relay : Request → ℕ → Result ℕ
  pub verify : Request → ℕ → Result (Unit {0})
  pub view_call : Request → (gas : ℕ) → ℕ → Result (Unit {0})

pub record ServerState : Type 0 where
  pub registration : RegistrationState
  pub last_scanned_block : ℕ
  pub last_refresh_block : ℕ
  pub ready : Bool
  pub last_successful_rounds : ℕ
  pub gas_price : ℕ
  pub worker_semaphore_on : Bool
  pub alerted : Bool
  pub alerted_block : ℕ
  pub initialized : Bool
  pub last_mined_active_transaction : Option EventData
  pub trusted_verifiers : List Address
  pub worker_balance_required : AmountRequired
  pub funding_needed : ℕ

abbrev pub on_registration : {A : Type 0} → Exec RegistrationState A → Exec ServerState A
on_registration m s = let (r, t) = m s.registration in (r, record s { registration = t })

abbrev pub query {ℓ} : {A : Type ℓ} → (ℕ → Result A) → ServerState → Result A × ServerState
query r s = (
  r s.registration.tx.time,
  record s {
    registration = record s.registration {
      tx = record s.registration.tx { time = s.registration.tx.time + 1 };
    };
  },
)

-- `trustedVerifiers.has(verifier.toLowerCase())`.
unfoldable pub is_trusted_verifier : Address → ServerState → Bool
is_trusted_verifier verifier s = any (λ v. text_eq v (to_lower verifier)) s.trusted_verifiers

-- `Set.add`.
abbrev add_to : Text → List Text → List Text
add_to v vs = if any (λ w. text_eq w v) vs then vs else vs ++ v ∷ []

add_lower : List Address → List Text → List Text
add_lower [] set = set
add_lower (v ∷ vs) set = add_lower vs (add_to (to_lower v) set)

add_configured : Address → List Text → List Text
add_configured v set = if text_eq v zero_address then set else add_to (to_lower v) set

unfoldable pub init_trusted_verifiers : ServerConfig → List Text
unfolding add_lower add_configured
init_trusted_verifiers config =
    add_configured config.deploy_verifier_address
      (add_configured config.relay_verifier_address (add_lower config.trusted_verifiers []))

module _ (env : ServerEnv) where
  unfoldable pub is_ready : ServerState → Bool
  is_ready s = not (ltb s.last_successful_rounds env.config.successful_rounds_for_ready) && s.ready

  unfoldable pub set_ready_state : Bool → ServerState → ServerState
  set_ready_state ready s = record s { ready = ready }

  unfoldable pub should_refresh_state : ℕ → ServerState → Bool
  should_refresh_state block s =
      leb (s.last_refresh_block + env.config.refresh_state_timeout_blocks) block || not (is_ready s)

  unfoldable pub refresh_gas_price : Exec ServerState (Unit {0})
  refresh_gas_price = do
    price ← query env.registration.tx_env.node.gas_price
    modify (λ s. record s { gas_price = env.config.with_factor price })
    require (not (env.config.with_factor price == 0)) no_gas_price

  unfoldable pub init : Exec ServerState (Unit {0})
  init = do
    initialized ← gets (λ s. s.initialized)
    require (not initialized) already_initialized
    modify (λ s. record s { trusted_verifiers = init_trusted_verifiers env.config })
    code ← query env.code_length
    require (leb 10 code) no_hub
    on_registration (Registration.init env.registration)
    block ← query env.registration.tx_env.node.block_number
    modify (λ s. record s { initialized = true })

-- One round of `handlePastHubEvents`: a rejection by the recipient alerts the server.
unfoldable pub handle_past_hub_event : ℕ → EventData → ServerState → ServerState
handle_past_hub_event block e s = elim e.kind [
  | transaction_rejected_by_recipient ↦ record s { alerted = true; alerted_block = block }
  | _ ↦ s
]

unfoldable pub handle_past_hub_events : ℕ → List EventData → ServerState → ServerState
handle_past_hub_events block [] s = s
handle_past_hub_events block (e ∷ es) s =
    handle_past_hub_events block es (handle_past_hub_event block e s)
