-- ===== src/Client/Relaying/Attempt/Sound.antt =====
-- src/relayclient/RelayClient.ts: what holds of a transaction that an attempt returns.
use rif_relay.Base.{
  Option-cases, Text, arith, false, if◌then◌else◌, inl, inr, none, subst, true, ℕ, ◌≡◌, ◌≤◌,
}
use rif_relay.Base.Exec.{>>=-eq-ok, Error, Exec, Result, Result-cases, err, ok, pure, ◌>>=◌, ◌>>◌}
use rif_relay.Client.Accounts.{typed_data}
use rif_relay.Client.Known.{RelayInfo}
use rif_relay.Client.Relaying.{
  ClientEnv, Session, TransactionDetails, emit, is_timeout, send_to_relayer,
}
use rif_relay.Client.Relaying.Attempt.{
  RelayingAttempt, attempt_relay, check_response, encoded_call_of, failed, post, prepare_and_check,
  refusal, relayed, requested, save_failure, send_request,
}
use rif_relay.Client.Relaying.Attempt.Signed.{
  IsChecked, IsSigned, Prepared, prepare_and_check-Prepared,
}
use rif_relay.Client.Selection.{Winner}
use rif_relay.Client.Validator.{ReturnedTx, received_nonce, validate_relay_response}
use rif_relay.Client.Validator.Sound.{validate_relay_response-valid}
use rif_relay.Common.Interactor.Accepts.{is_accepted}
use rif_relay.Common.Interactor.Validation.{Acceptance}
use rif_relay.Common.Requests.{
  AnyTransactionRequest, metadata_of, relay_data_of, request_of, sender_of,
}
use rif_relay.Common.Utils.{Address, is_same_address}

refusal-none : (a : Acceptance) → refusal a ≡ none → is_accepted a ≡ true
unfolding refusal
refusal-none a h = ground arith

module _ (env : ClientEnv) where
  -- A request that the sender signed, that the local check let pass, and that the returned
  -- transaction carries out.
  pub record IsSound (worker : Address) (details : TransactionDetails) (raw : Text) : Type 0 where
    pub request : AnyTransactionRequest
    pub tx : ReturnedTx
    pub signer : Address
    pub of_sender : sender_of (request_of request) ≡ details.from
    pub to_worker : (relay_data_of (request_of request)).relay_worker ≡ worker
    pub recovered :
        env.signing.recover_typed_signature
          (typed_data env.signing (request_of request))
          (metadata_of request).signature
        ≡ ok signer
    pub signed : is_same_address details.from signer ≡ true
    pub checked : IsChecked env.chain request
    pub decoded : env.decode_transaction raw ≡ ok tx
    pub to_hub : is_same_address tx.to env.config.relay_hub_address ≡ true
    pub called : tx.payload ≡ encoded_call_of env request
    pub by_worker : is_same_address worker tx.sender ≡ true
    pub nonce : ℕ
    pub with_nonce : received_nonce tx ≡ ok nonce
    pub in_time : nonce ≤ (metadata_of request).relay_max_nonce

  check_response-relayed :
      (info : RelayInfo) (request : AnyTransactionRequest) (raw raw' : Text) (s s' : Session)
      → check_response env info request raw s ≡ (ok (relayed raw'), s')
      → (tx : ReturnedTx) × (env.decode_transaction raw' ≡ ok tx)
        × (validate_relay_response (requested env request) tx ≡ ok true)
  unfolding check_response ◌>>=◌
  check_response-relayed info request raw raw' s s' h =
      elim (Result-cases (env.decode_transaction raw)) [
        | inr (x, e) ↦ absurd (ground (arith, e))
        | inl (tx, e) ↦ elim (Result-cases (validate_relay_response (requested env request) tx)) [
          | inr (x, f) ↦ absurd (ground (arith, e, f))
          | inl (true, f) ↦ (tx, ground (arith, e, f), f)
          | inl (false, f) ↦ absurd (ground (arith, e, f))
        ]
      ]

  not_relayed :
      (m : Exec Session (Unit {0})) (e : Error) (raw : Text) (s s' : Session)
      → ¬ ((m >> pure (failed e)) s ≡ (ok (relayed raw), s'))
  unfolding ◌>>=◌
  not_relayed m e raw s s' h = elim (Result-cases (m s).0) [
    | inl (u, q) ↦ absurd (ground (arith, q))
    | inr (x, q) ↦ absurd (ground (arith, q))
  ]

  answered-relayed :
      (info : RelayInfo) (request : AnyTransactionRequest) (answer : Result Text) (raw : Text)
      (s s' : Session)
      → (let m : Exec Session RelayingAttempt = elim answer [
        | ok raw ↦ check_response env info request raw
        | err e ↦ ((if is_timeout e then save_failure env info else pure tt) >> pure (failed e))
      ] in
          m s)
        ≡ (ok (relayed raw), s')
      → (tx : ReturnedTx) × (env.decode_transaction raw ≡ ok tx)
        × (validate_relay_response (requested env request) tx ≡ ok true)
  answered-relayed info request (ok text) raw s s' h =
      check_response-relayed info request text raw s s' h
  answered-relayed info request (err e) raw s s' h =
      absurd (not_relayed (if is_timeout e then save_failure env info else pure tt) e raw s s' h)

  send_request-relayed :
      (info : RelayInfo) (request : AnyTransactionRequest) (raw : Text) (s s' : Session)
      → send_request env info request s ≡ (ok (relayed raw), s')
      → (tx : ReturnedTx) × (env.decode_transaction raw ≡ ok tx)
        × (validate_relay_response (requested env request) tx ≡ ok true)
  unfolding send_request
  send_request-relayed info request raw s s' h =
      let (u, e, rest) = >>=-eq-ok (emit (send_to_relayer info.relay_url)) _ s h in
      let (answer, f, answered) = >>=-eq-ok (post env info.relay_url request) _ _ rest in
      answered-relayed info request answer raw _ s' answered

  assembled :
      (worker : Address) (details : TransactionDetails) (raw : Text)
      (request : AnyTransactionRequest) (tx : ReturnedTx)
      → IsSigned env worker details request
      → IsChecked env.chain request
      → env.decode_transaction raw ≡ ok tx
      → validate_relay_response (requested env request) tx ≡ ok true
      → IsSound worker details raw
  unfolding requested
  assembled worker details raw request tx (of_sender, to_worker, signature) checked decoded valid =
      let (to_hub, called, by_worker, (nonce, with_nonce, in_time)) =
        validate_relay_response-valid (requested env request) tx valid in
      record {
        request = request;
        tx = tx;
        signer = signature.0;
        of_sender = of_sender;
        to_worker = to_worker;
        recovered = signature.1;
        signed = subst (λ a. is_same_address a signature.0 ≡ true) of_sender signature.2;
        checked = checked;
        decoded = decoded;
        to_hub = to_hub;
        called = called;
        by_worker = subst (λ a. is_same_address a tx.sender ≡ true) to_worker by_worker;
        nonce = nonce;
        with_nonce = with_nonce;
        in_time = in_time;
      }

  -- A transaction that an attempt returns answers a request to this worker that the sender of the
  -- details signed; the local check had let the request pass; and the transaction is the requested
  -- call of the hub, sent by this worker with a nonce within the requested maximum.
  pub attempt_relay-IsSound :
      (w : Winner) (details : TransactionDetails) (raw : Text) (s s' : Session)
      → attempt_relay env w details s ≡ (ok (relayed raw), s')
      → IsSound w.ping_response.relay_worker_address details raw
  unfolding attempt_relay Prepared
  attempt_relay-IsSound w details raw s s' h =
      let worker = w.ping_response.relay_worker_address in
      let ((request, a), e1, h1) = >>=-eq-ok (prepare_and_check env worker details) _ s h in
      let (signed, checked) = prepare_and_check-Prepared env worker details s _ request a e1 in
      elim (Option-cases (refusal a)) [
        | inr (x, e) ↦ absurd (ground (arith, e, h1))
        | inl e ↦
            let (tx, decoded, valid) =
              send_request-relayed w.relay_info request raw
                (prepare_and_check env worker details s).1 s' (ground (arith, e, h1)) in
            assembled worker details raw request tx signed (checked (refusal-none a e)) decoded
              valid
      ]
