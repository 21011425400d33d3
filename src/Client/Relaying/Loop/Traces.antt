-- ===== src/Client/Relaying/Loop/Traces.antt =====
-- src/relayclient/RelayClient.ts: which relays an attempt announces.
use rif_relay.Base.{Bool, Option, Text, [], if◌then◌else◌, none, refl, some, ◌++◌, ◌∙◌, ◌∷◌, ◌≡◌}
use rif_relay.Base.Exec.{Error, Exec, Result, err, ok, pure, ◌>>=◌, ◌>>◌}
use rif_relay.Base.Steps.{Steps, Steps-catch, Steps-gets}
use rif_relay.Client.Known.{RelayInfo}
use rif_relay.Client.Relaying.{
  ClientEnv, Session, TransactionDetails, emit, is_timeout, next_relay, send_to_relayer,
}
use rif_relay.Client.Relaying.Attempt.{
  RelayingAttempt, attempt_or_error, attempt_relay, check_response, failed, post, prepare_and_check,
  refusal, save_failure, send_request,
}
use rif_relay.Client.Relaying.Loop.{token_gas_for, try_relay}
use rif_relay.Client.Relaying.Loop.Quiet.{
  Quiet, bind-Quiet, if-Quiet, prepare_and_check-Quiet, pure-Quiet, quiet, quiet_parts,
  relayer_response-Quiet, send_to_relayer-Quiet, token_gas_for-Quiet, tried_urls, tried_urls-append,
}
use rif_relay.Client.Selection.{Winner}
use rif_relay.Common.Requests.{AnyTransactionRequest}

module _ (env : ClientEnv) where
  post-Quiet : (url : Text) (request : AnyTransactionRequest) → Steps Quiet (post env url request)
  unfolding post Quiet
  post-Quiet url request = record { at = λ s. refl }

  save_failure-Quiet : (info : RelayInfo) → Steps Quiet (save_failure env info)
  unfolding save_failure Quiet
  save_failure-Quiet info = record { at = λ s. refl }

  check_response-Quiet :
      (info : RelayInfo) (request : AnyTransactionRequest) (raw : Text)
      → Steps Quiet (check_response env info request raw)
  unfolding check_response
  check_response-Quiet info request raw =
      search
        (quiet_parts, Steps-gets Quiet quiet, if-Quiet, relayer_response-Quiet, save_failure-Quiet)
        depth 24

  answered-Quiet :
      (info : RelayInfo) (request : AnyTransactionRequest) (answer : Result Text)
      → Steps Quiet (
          let m : Exec Session RelayingAttempt = elim answer [
            | ok raw ↦ check_response env info request raw
            | err e ↦ ((if is_timeout e then save_failure env info else pure tt) >> pure (failed e))
          ] in
          m)
  answered-Quiet info request (ok raw) = check_response-Quiet info request raw
  answered-Quiet info request (err e) =
      bind-Quiet _ _ (if-Quiet (is_timeout e) _ _ (save_failure-Quiet info) (pure-Quiet tt))
        (λ _. pure-Quiet (failed e))

  send_request-Quiet :
      (info : RelayInfo) (request : AnyTransactionRequest)
      → Steps Quiet (send_request env info request)
  unfolding send_request
  send_request-Quiet info request =
      bind-Quiet (emit (send_to_relayer info.relay_url)) _ (send_to_relayer-Quiet info.relay_url)
        (λ _.
          bind-Quiet (post env info.relay_url request) _ (post-Quiet info.relay_url request)
            (answered-Quiet info request))

  refused_or_sent-Quiet :
      (info : RelayInfo) (request : AnyTransactionRequest) (why : Option Error)
      → Steps Quiet (
          let m : Exec Session RelayingAttempt = elim why [
            | some e ↦ pure (failed e)
            | none ↦ send_request env info request
          ] in
          m)
  refused_or_sent-Quiet info request (some e) = pure-Quiet (failed e)
  refused_or_sent-Quiet info request none = send_request-Quiet info request

  attempt_or_error-Quiet :
      (w : Winner) (details : TransactionDetails) → Steps Quiet (attempt_or_error env w details)
  unfolding attempt_or_error attempt_relay
  attempt_or_error-Quiet w details =
      Steps-catch Quiet quiet (attempt_relay env w details) _
        (bind-Quiet (prepare_and_check env w.ping_response.relay_worker_address details) _
          (prepare_and_check-Quiet env w.ping_response.relay_worker_address details)
          (λ c. refused_or_sent-Quiet w.relay_info c.0 (refusal c.1)))
        (λ e. pure-Quiet (failed e))

  -- A try announces its own relay, and no other.
  pub tried_urls-try_relay :
      (needed : Bool) (w : Winner) (details : TransactionDetails) (s : Session)
      → tried_urls (try_relay env needed w details s).1.events
        ≡ tried_urls s.events ++ w.relay_info.relay_url ∷ []
  unfolding try_relay tried_urls Quiet ◌>>=◌
  tried_urls-try_relay needed w details s =
      let url = w.relay_info.relay_url in
      let announced = record s { events = s.events ++ next_relay url ∷ [] } in
      let rest : Steps Quiet (
          token_gas_for env needed w.ping_response.relay_worker_address details >>= λ d.
          (attempt_or_error env w d >>= λ attempt. pure (attempt, d))) =
        bind-Quiet _ _ (token_gas_for-Quiet env needed w.ping_response.relay_worker_address details)
          (λ d. bind-Quiet _ _ (attempt_or_error-Quiet w d) (λ attempt. pure-Quiet (attempt, d))) in
      rest.at announced ∙ tried_urls-append s.events (next_relay url ∷ [])
