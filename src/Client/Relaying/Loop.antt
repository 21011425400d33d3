-- ===== src/Client/Relaying/Loop.antt =====
-- src/relayclient/RelayClient.ts: `relayTransaction`, its relays one after the other. Each loop takes
-- fuel.
pub mod Ends
pub mod Quiet
pub mod Traces
pub mod Refines
use rif_relay.Base.{
  Bool, Option, Text, [], codes, false, if◌then◌else◌, is_some, length, ltb, none, not, or_else,
  some, suc, true, zero, ℕ, ◌&&◌, ◌==◌,
}
use rif_relay.Base.Dict.{Dict, put}
use rif_relay.Base.Exec.{
  Error, Exec, err, gets, lift, no_relayers, ok, out_of_fuel, pure, require, ◌>>=◌, ◌>>◌,
}
use rif_relay.Client.Discovery.Gap.{rounds}
use rif_relay.Client.Known.{get_relays_sorted_for_transaction, refresh}
use rif_relay.Client.Relaying.{
  ClientEnv, Session, TransactionDetails, client_init, done_refresh_relays, emit,
  get_estimate_gas_params, is_deploy, next_relay, on_chain, on_known, price_for, refresh_relays,
}
use rif_relay.Client.Relaying.Attempt.{RelayingAttempt, attempt_or_error, failed, relayed}
use rif_relay.Client.Relaying.Estimates.{estimate_token_transfer_gas}
use rif_relay.Client.Selection.{
  SelectionEnv, SelectionState, Winner, init, relays_left, select_next_relay,
}
use rif_relay.Common.Interactor.Validation.{estimate_destination_contract_call_gas}
use rif_relay.Common.Utils.{Address}

pub record RelayingResult : Type 0 where
  pub transaction : Option Text
  pub ping_errors : Dict Error
  pub relaying_errors : Dict Error

-- The client, and the selection of this transaction.
pub record Relaying : Type 0 where
  pub session : Session
  pub selection : SelectionState

abbrev pub on_session : {A : Type 0} → Exec Session A → Exec Relaying A
on_session m s = let (r, t) = m s.session in (r, record s { session = t })

abbrev pub on_selection : {A : Type 0} → Exec SelectionState A → Exec Relaying A
on_selection m s = let (r, t) = m s.selection in (r, record s { selection = t })

-- The gas of the token transfer depends on the worker that is paid.
unfoldable pub needs_token_gas : TransactionDetails → Bool
needs_token_gas details = not (is_some details.token_gas) && ltb 0 (or_else details.token_amount 0)

unfoldable pub finish_relaying : Option Text → Dict Error → Exec Relaying RelayingResult
finish_relaying transaction errors s = (
  ok (record {
    transaction = transaction;
    ping_errors = s.selection.errors;
    relaying_errors = errors;
  }),
  s,
)

module _ (env : ClientEnv) where
  unfoldable pub token_gas_for :
      (needed : Bool) → (worker : Address) → TransactionDetails → Exec Session TransactionDetails
  token_gas_for needed worker details =
      if needed
      then (do
        gas ← estimate_token_transfer_gas env details worker
        pure (record details { token_gas = some gas }))
      else pure details

  -- The attempt at a relay that was selected, with the details as they are after it.
  unfoldable pub try_relay :
      (needed : Bool)
      → Winner
      → TransactionDetails
      → Exec Session (RelayingAttempt × TransactionDetails)
  try_relay needed w details = do
    emit (next_relay w.relay_info.relay_url)
    d ← token_gas_for needed w.ping_response.relay_worker_address details
    attempt ← attempt_or_error env w d
    pure (attempt, d)

  -- The rest of a round after its attempt.
  unfoldable pub settle_attempt :
      (url : Text)
      → (TransactionDetails → Dict Error → Exec Relaying RelayingResult)
      → Dict Error
      → RelayingAttempt × TransactionDetails
      → Exec Relaying RelayingResult
  settle_attempt url again errors (relayed raw, d) = finish_relaying (some raw) errors
  settle_attempt url again errors (failed e, d) = again d (put url e errors)

  unfoldable pub use_relay :
      (needed : Bool)
      → (TransactionDetails → Dict Error → Exec Relaying RelayingResult)
      → TransactionDetails
      → Dict Error
      → Option Winner
      → Exec Relaying RelayingResult
  use_relay needed again details errors none = finish_relaying none errors
  use_relay needed again details errors (some w) = do
    tried ← on_session (try_relay needed w details)
    settle_attempt w.relay_info.relay_url again errors tried

  -- The `while (true)` of `relayTransaction`, in at most `rounds` rounds.
  unfoldable pub relay_loop :
      SelectionEnv
      → (only_preferred needed : Bool) → (fuel rounds : ℕ) → TransactionDetails
      → Dict Error
      → Exec Relaying RelayingResult
  relay_loop sel only_preferred needed fuel zero details errors s = (err out_of_fuel, s)
  relay_loop sel only_preferred needed fuel (suc rounds) details errors s =
      (on_selection (select_next_relay sel only_preferred fuel)
          >>= use_relay needed (relay_loop sel only_preferred needed fuel rounds) details errors)
        s

  unfoldable pub gas_for : TransactionDetails → Exec Session (Option Text)
  gas_for details = if is_deploy details then pure (some (codes "0x00")) else elim details.gas [
    | some gas ↦ pure (some gas)
    | none ↦ (do
      params ← lift (get_estimate_gas_params details)
      cost ← on_chain (estimate_destination_contract_call_gas env.chain params true)
      pure (some (env.to_hex cost)))
  ]

  abbrev new_selection : SelectionState
  new_selection = record { remaining_relays = []; is_initialized = false; errors = []; time = 0 }

  -- What comes before the loop: the details with price and gas, and the relays known.
  unfoldable pub prepare_relaying :
      (fuel : ℕ) → TransactionDetails → Exec Session (TransactionDetails × SelectionState)
  prepare_relaying fuel details = do
    client_init env
    emit refresh_relays
    on_known (λ k. refresh env.known fuel (env.clock k.time) k)
    price ← price_for env details
    gas ← gas_for (record details { gas_price = some price })
    selection ← gets (λ s. init (get_relays_sorted_for_transaction env.known s.known) new_selection)
    let count = length (relays_left selection)
    emit (done_refresh_relays count)
    require (not (count == 0)) no_relayers
    pure (record details { gas_price = some price; gas = gas }, selection)

  unfoldable pub relay_transaction :
      (fuel rounds : ℕ) → TransactionDetails → Exec Session RelayingResult
  relay_transaction fuel rounds details = do
    (d, selection) ← prepare_relaying fuel details
    λ s.
        let (r, t) =
          relay_loop (env.selection d) (or_else d.only_preferred_relays false)
            (needs_token_gas details) fuel rounds d []
            (record { session = s; selection = selection }) in
        (r, t.session)
