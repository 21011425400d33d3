-- ===== src/Server/Relay/Worker.antt =====
-- src/relayserver/RelayServer.ts: the rounds of the worker, one for each new block.
pub mod Ready
use rif_relay.Server.Registration
use rif_relay.Base.{
  Bool, List, Option, Text, [], false, if◌then◌else◌, leb, ltb, none, not, some, true, ℕ, ◌&&◌,
  ◌++◌, ◌+◌, ◌==◌, ◌||◌,
}
use rif_relay.Base.Exec.{
  Exec, Result, err, gets, modify, ok, older_block, pure, require, ◌>>=◌, ◌>>◌,
}
use rif_relay.Common.Amount.{is_satisfied}
use rif_relay.Common.Events.{EventData, get_latest_event_data}
use rif_relay.Server.Pending.{
  boost_underpriced_pending_transactions_for_signer, remove_confirmed_transactions,
}
use rif_relay.Server.Registration.{on_tx, refresh_balance}
use rif_relay.Server.Registration.Events.{handle_past_events}
use rif_relay.Server.Relay.{
  ServerEnv, ServerState, handle_past_hub_events, init, on_registration, query, refresh_gas_price,
  set_ready_state, should_refresh_state,
}
use rif_relay.Server.Relay.Replenish.{get_worker_balance, replenish_strategy}
use rif_relay.Server.Store.{is_action_pending}
use rif_relay.Server.Stored.{ServerAction, register_server, relay_call}
use rif_relay.Server.Transactions.{TxEnv}

-- `getLatestTxBlockNumber() + registrationBlockRate <= currentBlock`; -1 where none is known.
abbrev pub is_expired : ℕ → ℕ → Option EventData → Bool
is_expired rate block none = leb rate (block + 1)
is_expired rate block (some e) = leb (e.block_number + rate) block

module _ (env : ServerEnv) where
  tx_env : TxEnv
  tx_env = env.registration.tx_env

  hub_events_from : ℕ → Exec ServerState (List EventData)
  unfolding tx_env
  hub_events_from block = query (tx_env.node.hub_events block [])

  get_all_hub_events_since_last_scan : Exec ServerState (List EventData)
  unfolding hub_events_from
  get_all_hub_events_since_last_scan s = hub_events_from (s.last_scanned_block + 1) s

  query_latest_active_event : Exec ServerState (Option EventData)
  unfolding hub_events_from
  query_latest_active_event = do events ← hub_events_from 1; pure (get_latest_event_data events)

  -- Known now, or asked of the node.
  active_or_query : Option EventData → Exec ServerState (Option EventData)
  unfolding query_latest_active_event
  active_or_query (some e) = pure (some e)
  active_or_query none = query_latest_active_event

  unfoldable pub update_latest_tx_block_number : List EventData → Exec ServerState (Unit {0})
  unfolding active_or_query
  update_latest_tx_block_number events = do
    before ← gets (λ s. s.last_mined_active_transaction)
    active ←
        active_or_query (elim (get_latest_event_data events) [ none ↦ before | some e ↦ some e ])
    modify (λ s. record s { last_mined_active_transaction = active })

  is_pending : ServerAction → ServerState → Bool
  unfolding tx_env
  is_pending action s = is_action_pending tx_env.datastore action none s.registration.tx.docs

  unfoldable pub should_register_again : ℕ → ServerState → Bool
  unfolding is_pending
  should_register_again block s =
      not (
        env.config.registration_block_rate == 0
        || (is_pending relay_call s || is_pending register_server s))
      && is_expired env.config.registration_block_rate block s.last_mined_active_transaction

  -- For the manager, then for the worker.
  unfoldable pub boost_stuck_pending_transactions : ℕ → Exec ServerState (Unit {0})
  unfolding tx_env
  boost_stuck_pending_transactions block = do
    on_registration (
        on_tx (
          boost_underpriced_pending_transactions_for_signer tx_env env.registration.manager_address
            block))
    on_registration (
        on_tx (
          boost_underpriced_pending_transactions_for_signer tx_env env.registration.worker_address
            block))
    pure tt

  -- Leave the alerted state after the delay.
  unfoldable pub leave_alert : ℕ → ServerState → ServerState
  leave_alert block s =
      if s.alerted && ltb (s.alerted_block + env.config.alerted_block_delay) block
      then record s { alerted = false }
      else s

  finish_filled : ℕ → (filled : Bool) → List Text → Exec ServerState (List Text)
  finish_filled block filled hashes s =
      if filled
      then (ok hashes, leave_alert block (set_ready_state env true s))
      else (ok hashes, set_ready_state env false s)

  finish_registered : ℕ → List EventData → List Text → Exec ServerState (List Text)
  unfolding finish_filled
  finish_registered block events hashes = do
    modify (handle_past_hub_events block events)
    refills ← replenish_strategy env block
    balance ← get_worker_balance env
    finish_filled block (not (ltb balance env.config.worker_min_balance)) (hashes ++ refills)

  finish : ℕ → List EventData → List Text → (registered : Bool) → Exec ServerState (List Text)
  unfolding finish_registered
  finish block events hashes true s = finish_registered block events hashes s
  finish block events hashes false s = (ok hashes, set_ready_state env false s)

  unfoldable pub handle_changes : ℕ → Exec ServerState (List Text)
  unfolding get_all_hub_events_since_last_scan finish tx_env
  handle_changes block = do
    events ← get_all_hub_events_since_last_scan
    update_latest_tx_block_number events
    again ← gets (should_register_again block)
    scanned ← gets (λ s. s.last_scanned_block)
    hashes ← on_registration (handle_past_events env.registration events scanned block again)
    on_registration (on_tx (remove_confirmed_transactions tx_env block))
    boost_stuck_pending_transactions block
    modify (λ s. record s { last_scanned_block = block })
    registered ← gets (λ s. Registration.is_registered env.registration s.registration)
    finish block events hashes registered

  init_if_needed : Exec ServerState (Unit {0})
  init_if_needed s = if s.initialized then (ok tt, s) else init env s

  -- Not ready where the manager's balance does not suffice.
  changes_if_funded : ℕ → (funded : Bool) → Exec ServerState (List Text)
  changes_if_funded block true s = handle_changes block s
  changes_if_funded block false s = (ok [], set_ready_state env false s)

  refreshed : ℕ → Exec ServerState (List Text)
  unfolding changes_if_funded
  refreshed block = do
    modify (λ s. record s { last_refresh_block = block })
    refresh_gas_price env
    on_registration (refresh_balance env.registration)
    funded ← gets (λ s. is_satisfied s.registration.balance_required)
    changes_if_funded block funded

  refresh_or_skip : ℕ → (refresh : Bool) → Exec ServerState (List Text)
  unfolding refreshed
  refresh_or_skip block true = refreshed block
  refresh_or_skip block false = pure []

  unfoldable pub run_worker : ℕ → Exec ServerState (List Text)
  unfolding init_if_needed refresh_or_skip
  run_worker block = do
    init_if_needed
    scanned ← gets (λ s. s.last_scanned_block)
    require (ltb scanned block) older_block
    refresh ← gets (should_refresh_state env block)
    refresh_or_skip block refresh

  -- A worker that is not finished makes later calls return at once.
  unfoldable pub worker_semaphore : ℕ → Exec ServerState (Unit {0})
  worker_semaphore block s =
      if s.worker_semaphore_on
      then (ok tt, s)
      else let (r, t) = run_worker block (record s { worker_semaphore_on = true }) in
        elim r [
          | ok _ ↦ (
            ok tt,
            record t {
              last_successful_rounds = t.last_successful_rounds + 1;
              worker_semaphore_on = false;
            },
          )
          | err e ↦ (err e, record t { worker_semaphore_on = false })
        ]

  worker_for : Result ℕ → Exec ServerState (Unit {0})
  worker_for (err e) s = (err e, s)
  worker_for (ok block) s =
      if ltb s.last_scanned_block block then worker_semaphore block s else (ok tt, s)

  -- A round of the timer that ends before the ready timeout: an error is caught.
  unfoldable pub interval_handler : ServerState → ServerState
  unfolding worker_for tx_env
  interval_handler s =
      let (block, t) = query tx_env.node.block_number s in
      let (r, u) = worker_for block t in
      elim r [ ok _ ↦ u | err e ↦ record u { last_successful_rounds = 0 } ]

  -- The ready timeout, when it fires before the round ends.
  unfoldable pub time_out : ServerState → ServerState
  time_out s = record s { last_successful_rounds = 0 }
