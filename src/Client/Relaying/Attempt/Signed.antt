-- ===== src/Client/Relaying/Attempt/Signed.antt =====
-- src/relayclient/RelayClient.ts: what holds of a request that an attempt prepares and checks.
-- The local check let the request pass, at some time.
use rif_relay.Base.{Bool-cases, Text, arith, inl, inr, refl, subst, true, ℕ, ◌+◌, ◌≡◌}
use rif_relay.Base.Exec.{>>=-eq-ok, Exec, Result-cases, ok, ◌>>=◌}
use rif_relay.Client.Accounts.{sign, typed_data}
use rif_relay.Client.Accounts.Signs.{sign_of_sender}
use rif_relay.Client.Relaying.{
  ClientEnv, Session, TransactionDetails, emit, is_deploy, on_chain, validate_request,
}
use rif_relay.Client.Relaying.Attempt.{
  prepare_and_check, prepare_deploy_and_check, prepare_relay_and_check,
}
use rif_relay.Client.Relaying.Prepare.{
  deploy_request_of, prepare_deploy_http_request, prepare_relay_http_request, relay_request_of,
  signed_metadata,
}
use rif_relay.Common.Interactor.{ChainEnv, ChainState}
use rif_relay.Common.Interactor.Accepts.{
  Funds, Passed, is_accepted, validate_accept_deploy_call-Passed, validate_accept_relay_call-Passed,
}
use rif_relay.Common.Interactor.Validation.{
  Acceptance, validate_accept_deploy_call, validate_accept_relay_call,
}
use rif_relay.Common.Requests.{
  AnyRequest, AnyTransactionRequest, DeployTransactionRequest, RelayMetadata,
  RelayTransactionRequest, for_deploy, for_relay, metadata_of, relay_data_of, request_of, sender_of,
  to_deploy, to_relay,
}
use rif_relay.Common.Utils.{Address, is_same_address}

abbrev pub IsChecked : ChainEnv → AnyTransactionRequest → Type 0
IsChecked chain (to_relay r) =
    (time gas : ℕ) × Funds chain r.relay_request r.metadata.signature time gas
    × Passed chain r.relay_request r.metadata.signature gas (time + 1 + 1)
IsChecked chain (to_deploy r) =
    (gas time : ℕ) × (text : Text) × (chain.verify_deploy_call r.relay_request r.metadata.signature
        time
      ≡ ok tt)
    × (chain.deploy_call r.relay_request r.metadata.signature gas (time + 1) ≡ ok text)

module _ (env : ClientEnv) where
  signed_metadata_of_sender :
      (request : AnyRequest) (worker : Address) (s s' : Session) (metadata : RelayMetadata)
      → signed_metadata env request worker s ≡ (ok metadata, s')
      → (signer : Address) × (env.signing.recover_typed_signature
            (typed_data env.signing request)
            metadata.signature
          ≡ ok signer)
        × (is_same_address (sender_of request) signer ≡ true)
  unfolding signed_metadata ◌>>=◌
  signed_metadata_of_sender request worker s s' metadata h =
      let made = sign env.signing request s.accounts in
      elim (Result-cases made.0) [
        | inr (x, e) ↦ absurd (ground (arith, e))
        | inl (signature, e) ↦
            let (signer, recovered, same) =
              sign_of_sender env.signing request s.accounts made.1 signature (λ i. (e i, made.1)) in
            let its : metadata.signature ≡ signature = ground (arith, e) in
            (signer, rw its recovered, same)
      ]

  -- The sender's signature of a request to this worker.
  abbrev pub IsSigned : (worker : Address) → TransactionDetails → AnyTransactionRequest → Type 0
  IsSigned worker details request =
      (sender_of (request_of request) ≡ details.from)
      × ((relay_data_of (request_of request)).relay_worker ≡ worker)
      × ((signer : Address) × (env.signing.recover_typed_signature
              (typed_data env.signing (request_of request)) (metadata_of request).signature
            ≡ ok signer)
          × (is_same_address (sender_of (request_of request)) signer ≡ true))

  prepare_relay_http_request-IsSigned :
      (worker : Address) (details : TransactionDetails) (s s' : Session)
      (r : RelayTransactionRequest)
      → prepare_relay_http_request env worker details s ≡ (ok r, s')
      → IsSigned worker details (to_relay r)
  unfolding prepare_relay_http_request relay_request_of
  prepare_relay_http_request-IsSigned worker details s s' r h =
      let (forwarder, e1, h1) = >>=-eq-ok _ _ s h in
      let (nonce, e2, h2) = >>=-eq-ok _ _ _ h1 in
      let (price, e3, h3) = >>=-eq-ok _ _ _ h2 in
      let (gas, e4, h4) = >>=-eq-ok _ _ _ h3 in
      let (u, e5, h5) = >>=-eq-ok _ _ _ h4 in
      let (v, e6, h6) = >>=-eq-ok _ _ _ h5 in
      let (metadata, e7, h7) = >>=-eq-ok _ _ _ h6 in
      let request = relay_request_of env details forwarder worker nonce price gas in
      let built : RelayTransactionRequest = record {
        relay_request = request;
        metadata = metadata;
      } in
      let its : built ≡ r = ground (arith, h7) in
      subst (λ q. IsSigned worker details (to_relay q)) its
        (refl, refl, signed_metadata_of_sender (for_relay request) worker _ _ metadata e7)

  prepare_deploy_http_request-IsSigned :
      (worker : Address) (details : TransactionDetails) (s s' : Session)
      (r : DeployTransactionRequest)
      → prepare_deploy_http_request env worker details s ≡ (ok r, s')
      → IsSigned worker details (to_deploy r)
  unfolding prepare_deploy_http_request deploy_request_of
  prepare_deploy_http_request-IsSigned worker details s s' r h =
      let (forwarder, e1, h1) = >>=-eq-ok _ _ s h in
      let (nonce, e2, h2) = >>=-eq-ok _ _ _ h1 in
      let (price, e3, h3) = >>=-eq-ok _ _ _ h2 in
      let (u, e4, h4) = >>=-eq-ok _ _ _ h3 in
      let (metadata, e5, h5) = >>=-eq-ok _ _ _ h4 in
      let request = deploy_request_of env details forwarder worker nonce price in
      let built : DeployTransactionRequest = record {
        relay_request = request;
        metadata = metadata;
      } in
      let its : built ≡ r = ground (arith, h5) in
      subst (λ q. IsSigned worker details (to_deploy q)) its
        (refl, refl, signed_metadata_of_sender (for_deploy request) worker _ _ metadata e5)

  -- A request that is prepared is signed, and if it is not refused, it was checked.
  unfoldable pub Prepared :
      (worker : Address) → TransactionDetails → AnyTransactionRequest → Acceptance → Type 0
  Prepared worker details request a =
      IsSigned worker details request × (is_accepted a ≡ true → IsChecked env.chain request)

  on_chain-eq-ok :
      {A : Type 0} (m : Exec ChainState A) (s s' : Session) (a : A)
      → on_chain m s ≡ (ok a, s')
      → m s.chain ≡ (ok a, (m s.chain).1)
  on_chain-eq-ok m s s' a h i = ((h i).0, (m s.chain).1)

  prepare_relay_and_check-Prepared :
      (worker : Address) (details : TransactionDetails) (s s' : Session)
      (request : AnyTransactionRequest) (a : Acceptance)
      → prepare_relay_and_check env worker details s ≡ (ok (request, a), s')
      → Prepared worker details request a
  unfolding prepare_relay_and_check Prepared
  prepare_relay_and_check-Prepared worker details s s' request a h =
      let (r, e1, h1) = >>=-eq-ok _ _ s h in
      let (u, e2, h2) = >>=-eq-ok _ _ _ h1 in
      let (accepted, e3, h3) = >>=-eq-ok _ _ _ h2 in
      let its : to_relay r ≡ request = ground (arith, h3) in
      let same : accepted ≡ a = ground (arith, h3) in
      let check = validate_accept_relay_call env.chain r.relay_request r.metadata.signature in
      let announced =
        (emit validate_request (prepare_relay_http_request env worker details s).1).1 in
      let checked = on_chain-eq-ok check announced (on_chain check announced).1 accepted e3 in
      (
        subst (IsSigned worker details) its
            (prepare_relay_http_request-IsSigned worker details s _ r e1),
        λ acc.
            let (gas, funds, passed) =
              validate_accept_relay_call-Passed env.chain r.relay_request r.metadata.signature
                announced.chain (check announced.chain).1 accepted checked (rw same acc) in
            subst (IsChecked env.chain) its (announced.chain.time, gas, funds, passed),
      )

  prepare_deploy_and_check-Prepared :
      (worker : Address) (details : TransactionDetails) (s s' : Session)
      (request : AnyTransactionRequest) (a : Acceptance)
      → prepare_deploy_and_check env worker details s ≡ (ok (request, a), s')
      → Prepared worker details request a
  unfolding prepare_deploy_and_check Prepared
  prepare_deploy_and_check-Prepared worker details s s' request a h =
      let (r, e1, h1) = >>=-eq-ok _ _ s h in
      let (u, e2, h2) = >>=-eq-ok _ _ _ h1 in
      let (accepted, e3, h3) = >>=-eq-ok _ _ _ h2 in
      let its : to_deploy r ≡ request = ground (arith, h3) in
      let same : accepted ≡ a = ground (arith, h3) in
      let check = validate_accept_deploy_call env.chain r in
      let announced =
        (emit validate_request (prepare_deploy_http_request env worker details s).1).1 in
      let checked = on_chain-eq-ok check announced (on_chain check announced).1 accepted e3 in
      (
        subst (IsSigned worker details) its
            (prepare_deploy_http_request-IsSigned worker details s _ r e1),
        λ acc. subst (IsChecked env.chain) its (
            validate_accept_deploy_call-Passed env.chain r announced.chain (check announced.chain).1
              accepted checked (rw same acc)),
      )

  pub prepare_and_check-Prepared :
      (worker : Address) (details : TransactionDetails) (s s' : Session)
      (request : AnyTransactionRequest) (a : Acceptance)
      → prepare_and_check env worker details s ≡ (ok (request, a), s')
      → Prepared worker details request a
  unfolding prepare_and_check
  prepare_and_check-Prepared worker details s s' request a h =
      elim (Bool-cases (is_deploy details)) [
        | inl deploy ↦
            prepare_deploy_and_check-Prepared worker details s s' request a
              (ground (arith, deploy, h))
        | inr relay ↦
            prepare_relay_and_check-Prepared worker details s s' request a
              (ground (arith, relay, h))
      ]
