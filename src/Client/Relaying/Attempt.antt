-- ===== src/Client/Relaying/Attempt.antt =====
-- src/relayclient/RelayClient.ts and src/relayclient/HttpClient.ts: one attempt at one relay.
pub mod Signed
pub mod Sound
use rif_relay.Base.{
  Option, Text, [], false, if◌then◌else◌, is_some, none, not, or_else, some, true, ◌+◌,
}
use rif_relay.Base.Exec.{
  Error, Exec, Result, bad_response, call_reverted, catch, destination_reverted, err, gets, lift,
  low_worker_balance, message, no_message, not_initialized, ok, pure, require, verifier_rejected,
  ◌>>=◌, ◌>>◌,
}
use rif_relay.Client.Known.{RelayInfo, save_relay_failure}
use rif_relay.Client.Relaying.{
  ClientEnv, Session, TransactionDetails, broadcast_raw_tx, emit, is_deploy, is_timeout, on_chain,
  relayer_response, send_to_relayer, signed_tx_of, validate_request,
}
use rif_relay.Client.Relaying.Prepare.{prepare_deploy_http_request, prepare_relay_http_request}
use rif_relay.Client.Selection.{Winner}
use rif_relay.Client.Validator.{Requested, validate_relay_response}
use rif_relay.Common.Interactor.Validation.{
  Acceptance, Reason, in_client, in_verifier, no_balance, no_reason, returned,
  validate_accept_deploy_call, validate_accept_relay_call,
}
use rif_relay.Common.Requests.{
  AnyTransactionRequest, metadata_of, relay_data_of, request_of, to_deploy, to_relay,
}
use rif_relay.Common.Utils.{Address}

-- `RelayingAttempt`: the raw transaction, or an error.
pub data RelayingAttempt : Type 0 where
  relayed : (raw : Text) → RelayingAttempt
  failed : Error → RelayingAttempt

abbrev cause : Reason → Error
cause no_reason = no_message
cause (no_balance worker) = low_worker_balance
cause (in_verifier e) = e
cause (in_client e) = e
cause (returned text) = message text

-- The error of a request that the local check does not accept.
unfoldable pub refusal : Acceptance → Option Error
refusal a =
    if a.reverted_in_destination
    then some destination_reverted
    else if a.reverted
    then some (call_reverted (cause a.reason))
    else if not a.verifier_accepted
    then some (verifier_rejected (cause a.reason))
    else none

module _ (env : ClientEnv) where
  unfoldable pub prepare_deploy_and_check :
      (worker : Address) → TransactionDetails → Exec Session (AnyTransactionRequest × Acceptance)
  prepare_deploy_and_check worker details = do
    request ← prepare_deploy_http_request env worker details
    emit validate_request
    accepted ← on_chain (validate_accept_deploy_call env.chain request)
    pure (to_deploy request, accepted)

  unfoldable pub prepare_relay_and_check :
      (worker : Address) → TransactionDetails → Exec Session (AnyTransactionRequest × Acceptance)
  prepare_relay_and_check worker details = do
    request ← prepare_relay_http_request env worker details
    emit validate_request
    accepted ←
        on_chain
          (validate_accept_relay_call env.chain request.relay_request request.metadata.signature)
    pure (to_relay request, accepted)

  unfoldable pub prepare_and_check :
      (worker : Address) → TransactionDetails → Exec Session (AnyTransactionRequest × Acceptance)
  prepare_and_check worker details =
      if is_deploy details
      then prepare_deploy_and_check worker details
      else prepare_relay_and_check worker details

  -- `HttpClient.relayTransaction`, whose errors are caught.
  unfoldable pub post : (url : Text) → AnyTransactionRequest → Exec Session (Result Text)
  post url request s = (
    ok (elim (env.relay_answer url request s.posts) [
      | err e ↦ err e
      | ok body ↦ signed_tx_of body
    ]),
    record s { posts = s.posts + 1 },
  )

  unfoldable pub save_failure : RelayInfo → Exec Session (Unit {0})
  save_failure info s = (
    ok tt,
    record s {
      known =
          save_relay_failure env.known (env.clock s.posts) (or_else info.relay_manager [])
            info.relay_url s.known;
    },
  )

  unfoldable pub encoded_call_of : AnyTransactionRequest → Text
  encoded_call_of (to_relay r) = env.chain.encode_relay_call r.relay_request r.metadata.signature
  encoded_call_of (to_deploy r) = env.chain.encode_deploy_call r.relay_request r.metadata.signature

  -- What the returned transaction is compared with.
  unfoldable pub requested : AnyTransactionRequest → Requested
  requested request = record {
    relay_hub_address = env.config.relay_hub_address;
    encoded_call = encoded_call_of request;
    relay_worker = (relay_data_of (request_of request)).relay_worker;
    relay_max_nonce = (metadata_of request).relay_max_nonce;
  }

  unfoldable pub check_response :
      RelayInfo → AnyTransactionRequest → (raw : Text) → Exec Session RelayingAttempt
  check_response info request raw = do
    initialized ← gets (λ s. is_some s.chain.raw_tx_options)
    require initialized not_initialized
    tx ← lift (env.decode_transaction raw)
    valid ← lift (validate_relay_response (requested request) tx)
    if not valid
        then (do emit (relayer_response false); save_failure info; pure (failed bad_response))
        else (do
          emit (relayer_response true)
          _ ← on_chain (broadcast_raw_tx env raw)
          pure (relayed raw))

  unfoldable pub send_request : RelayInfo → AnyTransactionRequest → Exec Session RelayingAttempt
  send_request info request = do
    emit (send_to_relayer info.relay_url)
    answer ← post info.relay_url request
    elim answer [
      | ok raw ↦ check_response info request raw
      | err e ↦ ((if is_timeout e then save_failure info else pure tt) >> pure (failed e))
    ]

  unfoldable pub attempt_relay : Winner → TransactionDetails → Exec Session RelayingAttempt
  attempt_relay w details = do
    (request, accepted) ← prepare_and_check w.ping_response.relay_worker_address details
    elim (refusal accepted) [ some e ↦ pure (failed e) | none ↦ send_request w.relay_info request ]

  -- `.catch(error => ({ error }))`.
  unfoldable pub attempt_or_error : Winner → TransactionDetails → Exec Session RelayingAttempt
  attempt_or_error w details = catch (attempt_relay w details) (λ e. pure (failed e))
