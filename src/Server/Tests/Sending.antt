-- ===== src/Server/Tests/Sending.antt =====
-- The theorems on nonces, confirming and boosting, on the small server.
use rif_relay.Base.{[], refl, true, ◌*◌, ◌∷◌, ◌≡◌, ◌≤◌}
use rif_relay.Base.Dict.{get}
use rif_relay.Server.Pending.{boost_underpriced_pending_transactions_for_signer, check_confirmed}
use rif_relay.Server.Pending.Boost.{resolve_new_gas_price-IsBounded}
use rif_relay.Server.Pending.Confirm.{Outcome, check_confirmed-Outcome}
use rif_relay.Server.Pending.Consistent.{final-IsConsistent}
use rif_relay.Server.Pending.History.{Ascends, confirms, final, locks, run, run-Ascends}
use rif_relay.Server.Store.Laws.{IsConsistent}
use rif_relay.Server.Tests.{
  busy, busy-IsConsistent, list_store-IsDatastore, pending_tx, relayed, small_eth-IsEthTx,
  small_tx_env, started, worker,
}
use rif_relay.Server.Transactions.{TxState, resolve_new_gas_price, sign_and_store}

run-Ascends_example :
    Ascends worker 0 (run small_tx_env (locks relayed 10 ∷ locks relayed 12 ∷ []) started)
unfolding get rif_relay.Base.Strings.text_eq
run-Ascends_example =
    run-Ascends small_tx_env small_eth-IsEthTx worker (locks relayed 10 ∷ locks relayed 12 ∷ [])
      started (refl, (refl, tt))

final-IsConsistent_example :
    IsConsistent (final small_tx_env (locks relayed 10 ∷ confirms 9 ∷ []) busy).docs
final-IsConsistent_example =
    final-IsConsistent small_tx_env list_store-IsDatastore (locks relayed 10 ∷ confirms 9 ∷ []) busy
      busy-IsConsistent

abbrev locked : TxState
locked = (sign_and_store small_tx_env relayed 10 started).1

check_confirmed-Outcome_example :
    Outcome small_tx_env 9 pending_tx busy (check_confirmed small_tx_env 9 pending_tx busy).1.docs
check_confirmed-Outcome_example = check_confirmed-Outcome small_tx_env 9 pending_tx busy

resolve_new_gas_price-IsBounded_example :
    let (price, capped) = resolve_new_gas_price small_tx_env 90 in
    (price.num ≤ 100 * price.den)
    × (capped ≡ true → price.num ≡ 100 * price.den)
    × (5 ≤ 6 → 90 ≤ 100 → 90 * price.den ≤ price.num)
resolve_new_gas_price-IsBounded_example = resolve_new_gas_price-IsBounded small_tx_env 90

abbrev boosted : TxState
boosted = (boost_underpriced_pending_transactions_for_signer small_tx_env worker 9 busy).1
