-- ===== src/Server/Relay/Requests/Safety.antt =====
-- src/relayserver/RelayServer.ts: which requests are relayed.
use rif_relay.Base.{
  Option, any, ap, arith, holds, inl, inr, ltb, none, not, or_else, refl, some, sym, text_eq,
  to_lower, true, ℕ, ◌∙◌, ◌≡◌, ◌≤◌, ◌⊎◌,
}
use rif_relay.Base.Exec.{
  >>=-eq-ok, gets-eq-ok, low_gas_price, low_max_nonce, ok, pure-eq-ok, require-eq-ok, require_holds,
  require_state,
}
use rif_relay.Common.Utils.{is_same_address}
use rif_relay.Server.Registration.{on_tx}
use rif_relay.Server.Relay.{
  Request, ServerEnv, ServerState, is_ready, is_trusted_verifier, on_registration,
}
use rif_relay.Server.Relay.Replenish.{replenish_strategy}
use rif_relay.Server.Relay.Requests.{
  create_relay_transaction, relay_details, validate, validate_input, validate_max_nonce,
  validate_request_with_verifier,
}
use rif_relay.Server.Transactions.{SendDetails, SignedDetails, send_transaction}

-- What a server in state `s` has checked of a request.
pub record IsAcceptable (env : ServerEnv) (req : Request) (s : ServerState) : Type 0 where
  pub was_ready : is_ready env s ≡ true
  pub right_hub : is_same_address req.relay_hub_address env.hub_address ≡ true
  pub right_worker : is_same_address req.relay_worker env.registration.worker_address ≡ true
  pub pays : (req.gas_price ≡ none) ⊎ ((p : ℕ) × (req.gas_price ≡ some p) × (s.gas_price ≤ p))
  pub trusted : is_trusted_verifier req.call_verifier s ≡ true

module _ (env : ServerEnv) where
  -- What is asked of a price.
  IsPaying : Option ℕ → ServerState → Type 0
  IsPaying price s = (price ≡ none) ⊎ ((p : ℕ) × (price ≡ some p) × (s.gas_price ≤ p))

  price-IsPaying :
      (price : Option ℕ) (s : ServerState)
      → not (holds (λ p. ltb p s.gas_price) price) ≡ true
      → IsPaying price s
  unfolding IsPaying
  price-IsPaying none s h = inl refl
  price-IsPaying (some p) s h = inr (p, refl, ground (arith, h))

  validate_input-checks :
      (req : Request) (s s' : ServerState) (u : Unit {0})
      → validate_input env req s ≡ (ok u, s')
      → (is_same_address req.relay_hub_address env.hub_address ≡ true)
        × (is_same_address req.relay_worker env.registration.worker_address ≡ true)
        × IsPaying req.gas_price s
        × (s' ≡ s)
  unfolding validate_input is_same_address
  validate_input-checks req s s' u h =
      let (right_hub, h1) = require-eq-ok _ _ _ s h in
      let (right_worker, h2) = require-eq-ok _ _ _ s h1 in
      let h3 = gets-eq-ok _ _ s h2 in
      (
        right_hub,
        right_worker,
        price-IsPaying req.gas_price s (require_holds _ low_gas_price s h3),
        sym (ap (λ p. p.1) h3)
            ∙ require_state (not (holds (λ p. ltb p s.gas_price) req.gas_price)) low_gas_price s,
      )

  validate_max_nonce-trusted :
      (n : ℕ) (s s' : ServerState) (u : Unit {0})
      → validate_max_nonce env n s ≡ (ok u, s')
      → s'.trusted_verifiers ≡ s.trusted_verifiers
  unfolding validate_max_nonce
  validate_max_nonce-trusted n s s' u h =
      let (nonce, e1, h1) = >>=-eq-ok _ _ s h in
      sym (ap (λ p. p.1.trusted_verifiers) h1)
      ∙ ap (λ (t : ServerState). t.trusted_verifiers)
          (require_state (not (holds (λ m. ltb n m) nonce)) low_max_nonce _)

  validate_request_with_verifier-trusted :
      (req : Request) (s s' : ServerState) (gas : ℕ)
      → validate_request_with_verifier env req s ≡ (ok gas, s')
      → is_trusted_verifier req.call_verifier s ≡ true
  unfolding validate_request_with_verifier
  validate_request_with_verifier-trusted req s s' gas h =
      (require-eq-ok _ _ _ s (gets-eq-ok _ _ s h)).0

  -- A request whose validation returns is acceptable: the server was ready, hub and worker are its own,
  -- the price is at least the server's or no number, and the verifier is trusted; what is to be sent is
  -- the call of the hub that it asks for, by the worker, at the request's price.
  pub validate-IsAcceptable :
      (req : Request) (s s' : ServerState) (details : SendDetails)
      → validate env req s ≡ (ok details, s')
      → IsAcceptable env req s
        × (details.signer ≡ env.registration.worker_address)
        × (details.gas_price ≡ some (or_else req.gas_price env.nan_price))
        × (details.encoded_call ≡ some (env.encode req))
  unfolding validate relay_details IsPaying is_trusted_verifier
  validate-IsAcceptable req s s' details h =
      let (was_ready, h1) = require-eq-ok _ _ _ s (gets-eq-ok _ _ s h) in
      let (shaped, h2) = require-eq-ok _ _ _ s h1 in
      let (u3, e3, h3) = >>=-eq-ok _ _ s h2 in
      let (hub, worker, pays, same) = validate_input-checks req s _ u3 e3 in
      let (u4, e4, h4) = >>=-eq-ok _ _ _ h3 in
      let (gas, e5, h5) = >>=-eq-ok _ _ _ h4 in
      let (u6, e6, h6) = >>=-eq-ok _ _ _ h5 in
      let (block, e7, h7) = >>=-eq-ok _ _ _ h6 in
      let list =
        validate_max_nonce-trusted req.relay_max_nonce _ _ u4 e4
        ∙ ap (λ t. t.trusted_verifiers) same in
      let its = (pure-eq-ok h7).0 in
      (
        record {
          was_ready = was_ready;
          right_hub = hub;
          right_worker = worker;
          pays = pays;
          trusted =
              ap (λ vs. any (λ v. text_eq v (to_lower req.call_verifier)) vs) (sym list)
              ∙ validate_request_with_verifier-trusted req _ _ gas e5;
        },
        ap (λ d. d.signer) (sym its),
        ap (λ d. d.gas_price) (sym its),
        ap (λ d. d.encoded_call) (sym its),
      )

  -- With a custom replenishment configured, no request returns a result.
  pub create_relay_transaction-custom :
      (req : Request) (s s' : ServerState) (sent : SignedDetails)
      → env.config.custom_replenish ≡ true
      → ¬ (create_relay_transaction env req s ≡ (ok sent, s'))
  unfolding create_relay_transaction replenish_strategy
  create_relay_transaction-custom req s s' sent custom h =
      let (details, _, k) = >>=-eq-ok (validate env req) _ s h in
      let (sent', _, l) =
        >>=-eq-ok (on_registration (on_tx (send_transaction env.registration.tx_env details))) _ _
          k in
      let (hashes, m, _) = >>=-eq-ok (replenish_strategy env details.creation_block) _ _ l in
      absurd (ground (arith, custom, m))
