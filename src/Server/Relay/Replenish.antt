-- ===== src/Server/Relay/Replenish.antt =====
-- src/relayserver/ReplenishFunction.ts. Balances are natural numbers; their differences are integers.
use rif_relay.Base.{
  Bool, List, Text, [], false, if◌then◌else◌, leb, none, not, some, true, ℕ, ◌&&◌, ◌+◌, ◌∷◌,
}
use rif_relay.Base.Exec.{Exec, gets, modify, no_custom_replenish, ok, pure, raise, ◌>>=◌, ◌>>◌}
use rif_relay.Base.Int.{lt_ℤ, sub_ℕ, ℤ}
use rif_relay.Common.Amount.{is_satisfied, set_current_value}
use rif_relay.Server.Registration.{min_tx_gas_cost, on_tx}
use rif_relay.Server.Relay.{ServerEnv, ServerState, on_registration, query}
use rif_relay.Server.Store.{is_action_pending}
use rif_relay.Server.Stored.{value_transfer}
use rif_relay.Server.Transactions.{SendDetails, send_transaction}

module _ (env : ServerEnv) where
  unfoldable pub get_manager_balance : Exec ServerState ℕ
  get_manager_balance =
      query (env.registration.tx_env.node.balance true env.registration.manager_address)

  unfoldable pub get_worker_balance : Exec ServerState ℕ
  get_worker_balance =
      query (env.registration.tx_env.node.balance true env.registration.worker_address)

  is_refill_pending : ServerState → Bool
  is_refill_pending s =
      is_action_pending env.registration.tx_env.datastore value_transfer
        (some env.registration.worker_address) s.registration.tx.docs

  refill_of : ServerState → ℤ
  refill_of s = sub_ℕ env.config.worker_target_balance s.worker_balance_required.current_value

  pub refill_details : ℤ → ℕ → SendDetails
  refill_details refill block = record {
    signer = env.registration.manager_address;
    action = value_transfer;
    encoded_call = none;
    destination = env.registration.worker_address;
    value = some refill;
    gas_limit = min_tx_gas_cost;
    gas_price = none;
    creation_block = block;
  }

  -- The manager keeps its minimum.
  unfoldable pub can_refill : ℤ → (manager_balance : ℕ) → Bool
  can_refill refill balance = lt_ℤ refill (sub_ℕ balance env.config.manager_min_balance)

  unfoldable pub refill_worker : (manager_balance block : ℕ) → Exec ServerState (List Text)
  unfolding refill_of refill_details
  refill_worker balance block = do
    refill ← gets refill_of
    if can_refill refill balance
        then (on_registration
              (on_tx (send_transaction env.registration.tx_env (refill_details refill block)))
            >>= λ sent. pure (sent.transaction_hash ∷ []))
        else (modify (λ s. record s { funding_needed = s.funding_needed + 1 }) >> pure [])

  refill_if_needed : (manager_balance block : ℕ) → Exec ServerState (List Text)
  unfolding is_refill_pending
  refill_if_needed balance block s =
      if not (is_satisfied s.worker_balance_required) && not (is_refill_pending s)
      then refill_worker balance block s
      else (ok [], s)

  -- The manager's balance is read again before a refill.
  replenish_unless : (filled : Bool) → ℕ → Exec ServerState (List Text)
  unfolding refill_if_needed
  replenish_unless true block = pure []
  replenish_unless false block = do
    manager_again ← get_manager_balance
    refill_if_needed manager_again block

  unfoldable pub default_replenish_function : ℕ → Exec ServerState (List Text)
  unfolding replenish_unless
  default_replenish_function block = do
    manager ← get_manager_balance
    worker ← get_worker_balance
    modify (λ s. record s {
      worker_balance_required = set_current_value worker s.worker_balance_required;
    })
    filled ← gets (λ s.
        leb env.config.manager_target_balance manager && is_satisfied s.worker_balance_required)
    replenish_unless filled block

  unfoldable pub replenish_strategy : ℕ → Exec ServerState (List Text)
  replenish_strategy block =
      if env.config.custom_replenish
      then raise no_custom_replenish
      else default_replenish_function block
