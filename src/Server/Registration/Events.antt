-- ===== src/Server/Registration/Events.antt =====
-- src/relayserver/RegistrationManager.ts: withdrawing funds, and the handling of past events.
use rif_relay.Base.{
  Bool, List, Option, Text, [], false, if◌then◌else◌, leb, none, not, or_else, some, true, ℕ, ◌*◌,
  ◌++◌, ◌+◌, ◌-◌, ◌||◌, ◌∷◌,
}
use rif_relay.Base.Exec.{Exec, gets, modify, not_initialized, ok, pure, require, ◌>>=◌, ◌>>◌}
use rif_relay.Base.Int.{pos}
use rif_relay.Common.Events.{EventData, EventKind, stake_added, stake_unlocked, stake_withdrawn}
use rif_relay.Common.Utils.{Address}
use rif_relay.Server.Registration.{
  RegistrationEnv, RegistrationState, attempt_registration, extract_due_pending_events, is_pending,
  is_registration_correct, min_tx_gas_cost, note_hub_events, on_tx, refresh_stake,
}
use rif_relay.Server.Stored.{register_server, value_transfer}
use rif_relay.Server.Transactions.{SendDetails, ask, send_transaction}

module _ (env : RegistrationEnv) where
  open env use {tx_env, manager_address, worker_address}

  unfoldable pub transfer_details :
      Address → Option Address → (balance gas_price block : ℕ) → SendDetails
  transfer_details from owner balance gas_price block = record {
    signer = from;
    action = value_transfer;
    encoded_call = none;
    destination = or_else owner [];
    value = some (pos (balance - min_tx_gas_cost * gas_price));
    gas_limit = min_tx_gas_cost;
    gas_price = some gas_price;
    creation_block = block;
  }

  -- `_sendManagerEthBalanceToOwner` and `_sendWorkersEthBalancesToOwner`.
  unfoldable pub send_balance_to_owner : Address → ℕ → Exec RegistrationState (List Text)
  unfolding transfer_details
  send_balance_to_owner from block = do
    gas_price ← on_tx (ask tx_env.node.gas_price)
    balance ← on_tx (ask (tx_env.node.balance false from))
    owner ← gets (λ s. s.owner_address)
    if leb (min_tx_gas_cost * gas_price) balance
        then (on_tx (send_transaction tx_env (transfer_details from owner balance gas_price block))
            >>= λ sent. pure (sent.transaction_hash ∷ []))
        else pure []

  unfoldable pub withdraw_all_funds : Bool → ℕ → Exec RegistrationState (List Text)
  unfolding send_balance_to_owner
  withdraw_all_funds withdraw_manager block = do
    workers ← send_balance_to_owner worker_address block
    manager ← if withdraw_manager then send_balance_to_owner manager_address block else pure []
    modify (λ s. record s { unstaked_emitted = s.unstaked_emitted + 1 })
    pure (workers ++ manager)

  unfoldable pub delay : EventData → RegistrationState → RegistrationState
  delay e s = record s {
    delayed_events = s.delayed_events ++ record { block = e.withdraw_block; event_data = e } ∷ [];
  }

  unfoldable pub handle_stake_kind : ℕ → EventData → EventKind → Exec RegistrationState (List Text)
  unfolding delay
  handle_stake_kind block e stake_added = refresh_stake env >> pure []
  handle_stake_kind block e stake_unlocked = refresh_stake env >> (modify (delay e) >> pure [])
  handle_stake_kind block e stake_withdrawn = refresh_stake env >> withdraw_all_funds true block
  handle_stake_kind block e _ = pure []

  -- One round of the loop over the events of the stake manager.
  unfoldable pub handle_stake_event : ℕ → EventData → Exec RegistrationState (List Text)
  unfolding handle_stake_kind
  handle_stake_event block e = handle_stake_kind block e e.kind

  unfoldable pub handle_due_kind : ℕ → EventKind → Exec RegistrationState (List Text)
  handle_due_kind block stake_unlocked = withdraw_all_funds false block
  handle_due_kind block _ = pure []

  unfoldable pub handle_due_event : ℕ → EventData → Exec RegistrationState (List Text)
  unfolding handle_due_kind
  handle_due_event block e = handle_due_kind block e.kind

-- The loop that concatenates the transaction hashes.
unfoldable pub each_event :
    (EventData → Exec RegistrationState (List Text))
    → List EventData
    → Exec RegistrationState (List Text)
each_event handle [] = pure []
each_event handle (e ∷ es) = do first ← handle e; rest ← each_event handle es; pure (first ++ rest)

module _ (env : RegistrationEnv) where
  -- Take the due events off the delayed ones.
  unfoldable pub extract_due : ℕ → Exec RegistrationState (List EventData)
  extract_due block s = (
    ok (extract_due_pending_events block s.delayed_events).0,
    record s { delayed_events = (extract_due_pending_events block s.delayed_events).1 },
  )

  -- Register where the registration is neither right nor on its way, or where forced.
  unfoldable pub register_if_needed : (force : Bool) → ℕ → Exec RegistrationState (List Text)
  unfolding is_pending
  register_if_needed force block s =
      if not (is_pending env register_server s || is_registration_correct env s) || force
      then attempt_registration env block s
      else (ok [], s)

  unfoldable pub handle_past_events :
      (hub_events : List EventData)
      → (last_scanned_block current_block : ℕ) → (force_registration : Bool)
      → Exec RegistrationState (List Text)
  unfolding extract_due register_if_needed
  handle_past_events hub_events last_scanned_block block force = do
    initialized ← gets (λ s. s.is_initialized)
    require initialized not_initialized
    decoded ← on_tx (ask (env.tx_env.node.stake_events (last_scanned_block + 1)))
    from_stake ← each_event (handle_stake_event env block) decoded
    modify (note_hub_events hub_events)
    due ← extract_due block
    from_due ← each_event (handle_due_event env block) due
    registered ← register_if_needed force block
    pure (from_stake ++ from_due ++ registered)
