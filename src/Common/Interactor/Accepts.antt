-- ===== src/Common/Interactor/Accepts.antt =====
-- src/common/ContractInteractor.ts: which relayed calls the local check accepts.
use rif_relay.Base.{
  Bool, Bool-cases, Option-cases, Text, arith, false, inl, inr, none, not, some, true, ℕ, ◌&&◌, ◌*◌,
  ◌+◌, ◌/◌, ◌==◌, ◌≡◌, ◌≤◌,
}
use rif_relay.Base.Exec.{>>=-eq-ok, Result-cases, catch, ok, pure, ◌>>=◌, ◌>>◌}
use rif_relay.Common.Interactor.{ChainEnv, ChainState}
use rif_relay.Common.Interactor.Validation.{
  Acceptance, after_verifier, call_deploy, call_relay, estimate_relay_transaction_max_possible_gas,
  get_max_viewable_deploy_gas_limit, get_max_viewable_relay_gas_limit, relay_params,
  validate_accept_deploy_call, validate_accept_relay_call, verify_deploy, verify_relay,
}
use rif_relay.Common.Requests.{DeployTransactionRequest, RelayRequest}

abbrev pub is_accepted : Acceptance → Bool
is_accepted a = a.verifier_accepted && (not a.reverted && not a.reverted_in_destination)

module _ (env : ChainEnv) where
  -- What the network said of a request: the worker's balance pays for twice the estimate.
  pub record Funds (r : RelayRequest) (signature : Text) (time gas : ℕ) : Type 0 where
    pub price : ℕ
    pub estimate : ℕ
    pub balance : ℕ
    pub priced : r.relay_data.gas_price ≡ some price
    pub estimated : env.estimate_gas (relay_params env r signature) time ≡ ok estimate
    pub held : env.balance r.relay_data.relay_worker (time + 1) ≡ ok balance
    pub doubled : gas ≡ estimate * 2
    pub paid : gas ≤ balance / price

  gas_limit-Funds :
      (r : RelayRequest) (signature : Text) (s s' : ChainState) (gas : ℕ)
      → get_max_viewable_relay_gas_limit env r signature s ≡ (ok gas, s')
      → (gas == 0) ≡ false
      → Funds r signature s.time gas × (s'.time ≡ s.time + 1 + 1)
  unfolding get_max_viewable_relay_gas_limit estimate_relay_transaction_max_possible_gas ◌>>=◌
  gas_limit-Funds r signature s s' gas h used = elim (Option-cases r.relay_data.gas_price) [
    | inl e ↦ absurd (ground (arith, e))
    | inr (price, e) ↦
        elim (Result-cases (env.estimate_gas (relay_params env r signature) s.time)) [
          | inr (x, f) ↦ absurd (ground (arith, e, f))
          | inl (estimate, f) ↦
              elim (Result-cases (env.balance r.relay_data.relay_worker (s.time + 1))) [
                | inr (x, g) ↦ absurd (ground (arith, e, f, g))
                | inl (balance, g) ↦ (
                  record {
                    price = price;
                    estimate = estimate;
                    balance = balance;
                    priced = e;
                    estimated = f;
                    held = g;
                    doubled = ground (arith, e, f, g);
                    paid = ground (arith, e, f, g);
                  },
                  ground (arith, e, f, g),
                )
              ]
        ]
  ]

  -- The verifier let the request pass, and the call of the hub succeeded at this gas.
  abbrev pub Passed : RelayRequest → (signature : Text) → (gas time : ℕ) → Type 0
  Passed r signature gas time =
      (env.verify_relayed_call r signature time ≡ ok tt)
      × (env.relay_call r signature gas (time + 1) ≡ ok true)

  calls-Passed :
      (r : RelayRequest) (signature : Text) (gas : ℕ) (s s' : ChainState) (a : Acceptance)
      → (catch (verify_relay env r signature >> pure none) (λ e. pure (some e)) >>= λ v.
            after_verifier v (call_relay env r signature gas))
          s
        ≡ (ok a, s')
      → is_accepted a ≡ true
      → Passed r signature gas s.time
  unfolding verify_relay call_relay after_verifier catch ◌>>=◌
  calls-Passed r signature gas s s' a h acc = (ground arith, ground arith)

  deploy_calls-Passed :
      (r : DeployTransactionRequest) (gas : ℕ) (s s' : ChainState) (a : Acceptance)
      → (catch (verify_deploy env r >> pure none) (λ e. pure (some e)) >>= λ v.
            after_verifier v (call_deploy env r gas))
          s
        ≡ (ok a, s')
      → is_accepted a ≡ true
      → (text : Text) × (env.verify_deploy_call r.relay_request r.metadata.signature s.time ≡ ok tt)
        × (env.deploy_call r.relay_request r.metadata.signature gas (s.time + 1) ≡ ok text)
  unfolding verify_deploy call_deploy after_verifier catch ◌>>=◌
  deploy_calls-Passed r gas s s' a h acc =
      elim (Result-cases (env.deploy_call r.relay_request r.metadata.signature gas (s.time + 1))) [
        | inr (x, e) ↦ absurd (ground (arith, e))
        | inl (text, e) ↦ (text, ground (arith, e), e)
      ]

  -- A relayed call that the local check accepts is paid for by the worker's balance, with a gas limit
  -- of twice the estimate, was let pass by the verifier, and succeeds in a local call at this gas.
  pub validate_accept_relay_call-Passed :
      (r : RelayRequest) (signature : Text) (s s' : ChainState) (a : Acceptance)
      → validate_accept_relay_call env r signature s ≡ (ok a, s')
      → is_accepted a ≡ true
      → (gas : ℕ) × Funds r signature s.time gas × Passed r signature gas (s.time + 1 + 1)
  unfolding validate_accept_relay_call
  validate_accept_relay_call-Passed r signature s s' a h acc =
      let (gas, e, rest) = >>=-eq-ok (get_max_viewable_relay_gas_limit env r signature) _ s h in
      elim (Bool-cases (gas == 0)) [
        | inl z ↦ absurd (ground (arith, z, rest))
        | inr used ↦
            let after = (get_max_viewable_relay_gas_limit env r signature s).1 in
            let (funds, at) = gas_limit-Funds r signature s after gas e used in
            let passed = calls-Passed r signature gas after s' a (ground (arith, used, rest)) acc in
            (gas, funds, rw (← at) passed)
      ]

  -- A deployment that the local check accepts was let pass by the verifier, and its local call
  -- returned.
  pub validate_accept_deploy_call-Passed :
      (r : DeployTransactionRequest) (s s' : ChainState) (a : Acceptance)
      → validate_accept_deploy_call env r s ≡ (ok a, s')
      → is_accepted a ≡ true
      → (gas time : ℕ) × (text : Text) × (env.verify_deploy_call r.relay_request
            r.metadata.signature time
          ≡ ok tt)
        × (env.deploy_call r.relay_request r.metadata.signature gas (time + 1) ≡ ok text)
  unfolding validate_accept_deploy_call
  validate_accept_deploy_call-Passed r s s' a h acc =
      let (gas, e, rest) = >>=-eq-ok (get_max_viewable_deploy_gas_limit env r) _ s h in
      elim (Bool-cases (gas == 0)) [
        | inl z ↦ absurd (ground (arith, z, rest))
        | inr used ↦
            let after = (get_max_viewable_deploy_gas_limit env r s).1 in
            let (text, verified, returned_it) =
              deploy_calls-Passed r gas after s' a (ground (arith, used, rest)) acc in
            (gas, after.time, text, verified, returned_it)
      ]
