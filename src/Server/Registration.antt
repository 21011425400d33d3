-- ===== src/Server/Registration.antt =====
-- src/relayserver/RegistrationManager.ts. The calls that web3 encodes are parameters; an owner that
-- is not known yet is an empty destination, as ethereumjs-tx takes an undefined one.
pub mod Events
pub mod Latest
use rif_relay.Base.{
  Bool, List, Option, Text, [], any, false, filter, holds, if◌then◌else◌, leb, ltb, map, none,
  or_else, some, true, ℕ, ◌&&◌, ◌++◌, ◌==◌, ◌||◌, ◌∷◌,
}
use rif_relay.Base.Exec.{Exec, gets, modify, ok, pure, ◌>>=◌, ◌>>◌}
use rif_relay.Common.Amount.{AmountRequired, is_satisfied, set_current_value}
use rif_relay.Common.Events.{
  EventData, EventKind, get_latest_event_data, is_registration_valid, is_second_event_later,
  registration_url, relay_server_registered, relay_workers_added,
}
use rif_relay.Common.Interactor.{is_initialized}
use rif_relay.Common.Utils.{Address, is_same_address}
use rif_relay.Server.Node.{StakeInfo}
use rif_relay.Server.Store.{is_action_pending}
use rif_relay.Server.Stored.{ServerAction, add_worker, register_server}
use rif_relay.Server.Transactions.{
  SendDetails, TxEnv, TxState, ask, attempt_estimate_gas, send_transaction,
}

pub record RegistrationEnv : Type 0 where
  pub tx_env : TxEnv
  pub manager_address : Address
  pub worker_address : Address
  pub hub_address : Address
  pub url : Text
  pub port : ℕ
  pub show : ℕ → Text
  pub add_relay_workers_method : List Address → Text
  pub register_relay_method : Text → Text

pub record DelayedEvent : Type 0 where
  pub block : ℕ
  pub event_data : EventData

pub record RegistrationState : Type 0 where
  pub tx : TxState
  pub balance_required : AmountRequired
  pub stake_required : AmountRequired
  pub is_stake_locked : Bool
  pub is_initialized : Bool
  pub owner_address : Option Address
  pub last_mined_register_transaction : Option EventData
  pub last_worker_added_transaction : Option EventData
  pub delayed_events : List DelayedEvent
  pub unstaked_emitted : ℕ

-- `mintxgascost`.
abbrev pub min_tx_gas_cost : ℕ
min_tx_gas_cost = 21000

-- An action of the transaction manager, and a request to the node.
abbrev pub on_tx : {A : Type 0} → Exec TxState A → Exec RegistrationState A
on_tx m s = let (r, t) = m s.tx in (r, record s { tx = t })

-- `eventData` replaces an event that it is later than.
unfoldable pub later_of : Option EventData → EventData → Option EventData
later_of none e = some e
later_of (some old) e = if is_second_event_later old e then some e else some old

-- One round of the loop over the events of the hub.
unfoldable pub note_hub_event : EventData → RegistrationState → RegistrationState
unfolding later_of
note_hub_event e s = elim e.kind [
  | relay_server_registered ↦ record s {
    last_mined_register_transaction = later_of s.last_mined_register_transaction e;
  }
  | relay_workers_added ↦ record s {
    last_worker_added_transaction = later_of s.last_worker_added_transaction e;
  }
  | _ ↦ s
]

unfoldable pub note_hub_events : List EventData → RegistrationState → RegistrationState
note_hub_events [] s = s
note_hub_events (e ∷ es) s = note_hub_events es (note_hub_event e s)

unfoldable pub extract_due_pending_events :
    ℕ → List DelayedEvent → List EventData × List DelayedEvent
extract_due_pending_events block delayed = (
  map (λ d. d.event_data) (filter (λ d. leb d.block block) delayed),
  filter (λ d. ltb block d.block) delayed,
)

module _ (env : RegistrationEnv) where
  open env use {
    tx_env, manager_address, worker_address, hub_address, url, port, show, add_relay_workers_method,
    register_relay_method,
  }

  unfoldable pub is_registration_correct : RegistrationState → Bool
  is_registration_correct s =
      is_registration_valid show url port s.last_mined_register_transaction manager_address

  unfoldable pub is_worker_valid : RegistrationState → Bool
  is_worker_valid s =
      holds (λ e. any (λ a. is_same_address a worker_address) e.new_relay_workers)
        s.last_worker_added_transaction

  unfoldable pub is_registered : RegistrationState → Bool
  is_registered s = is_satisfied s.stake_required && s.is_stake_locked && is_registration_correct s

  latest_event : EventKind → Exec RegistrationState (Option EventData)
  latest_event kind = do
    events ← on_tx (ask (tx_env.node.hub_events 1 (kind ∷ [])))
    pure (get_latest_event_data events)

  -- `x ?? await query`.
  known_or : Option EventData → EventKind → Exec RegistrationState (Option EventData)
  unfolding latest_event
  known_or (some e) kind = pure (some e)
  known_or none kind = latest_event kind

  unfoldable pub init : Exec RegistrationState (Unit {0})
  unfolding known_or
  init = do
    known_worker ← gets (λ s. s.last_worker_added_transaction)
    worker ← known_or known_worker relay_workers_added
    modify (λ s. record s { last_worker_added_transaction = worker })
    known_register ← gets (λ s. s.last_mined_register_transaction)
    register ← known_or known_register relay_server_registered
    modify (λ s. record s { last_mined_register_transaction = register })
    modify (λ s. record s { is_initialized = true })

  unfoldable pub refresh_balance : Exec RegistrationState (Unit {0})
  refresh_balance = do
    balance ← on_tx (ask (tx_env.node.balance false manager_address))
    modify (λ s. record s { balance_required = set_current_value balance s.balance_required })

  note_stake : StakeInfo → RegistrationState → RegistrationState
  note_stake info s = if info.stake == 0 then s else record s {
    is_stake_locked = info.withdraw_block == 0;
    stake_required = set_current_value info.stake s.stake_required;
    owner_address = some (or_else s.owner_address info.owner);
  }

  unfoldable pub refresh_stake : Exec RegistrationState (Unit {0})
  unfolding note_stake
  refresh_stake = do
    info ← on_tx (ask (tx_env.node.stake_info manager_address))
    modify (note_stake info)

  call_details : ServerAction → Text → ℕ → ℕ → SendDetails
  call_details action method gas_limit block = record {
    signer = manager_address;
    action = action;
    encoded_call = some method;
    destination = hub_address;
    value = none;
    gas_limit = gas_limit;
    gas_price = none;
    creation_block = block;
  }

  -- Estimate the gas of a call of the hub, and send it; the result is the hash.
  send_call : ServerAction → Text → ℕ → Exec RegistrationState Text
  unfolding call_details
  send_call action method block = do
    gas ← on_tx (attempt_estimate_gas tx_env method manager_address)
    sent ← on_tx (send_transaction tx_env (call_details action method gas block))
    pure sent.transaction_hash

  unfoldable pub add_relay_worker : ℕ → Exec RegistrationState Text
  unfolding send_call
  add_relay_worker block =
      send_call add_worker (add_relay_workers_method (worker_address ∷ [])) block

  is_pending : ServerAction → RegistrationState → Bool
  is_pending action s = is_action_pending tx_env.datastore action none s.tx.docs

  -- The worker is added unless it is, or its transaction is pending.
  add_worker_first : ℕ → Exec RegistrationState (List Text)
  unfolding is_pending
  add_worker_first block s =
      if is_worker_valid s || is_pending add_worker s
      then (ok [], s)
      else (add_relay_worker block >>= λ hash. pure (hash ∷ [])) s

  prerequisites_ok : RegistrationState → Bool
  prerequisites_ok s =
      s.is_stake_locked && is_satisfied s.stake_required && is_satisfied s.balance_required

  register : ℕ → Exec RegistrationState (List Text)
  unfolding add_worker_first send_call
  register block = do
    before ← add_worker_first block
    hash ← send_call register_server (register_relay_method (registration_url show url port)) block
    pure (before ++ hash ∷ [])

  unfoldable pub attempt_registration : ℕ → Exec RegistrationState (List Text)
  unfolding prerequisites_ok register
  attempt_registration block s = if prerequisites_ok s then register block s else (ok [], s)
