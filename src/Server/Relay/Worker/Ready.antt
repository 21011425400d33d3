-- ===== src/Server/Relay/Worker/Ready.antt =====
-- src/relayserver/RelayServer.ts: when a server is ready, and whom it trusts.
use rif_relay.Base.{
  Bool-cases, List, Text, [], any, any-append, arith, false, inl, inr, not, subst, text_eq,
  text_eq_iff, to_lower, true, ℕ, ◌&&◌, ◌<◌, ◌||◌, ◌∷◌, ◌≡◌, ◌≤◌,
}
use rif_relay.Base.Exec.{Error, Result-cases, err, ok}
use rif_relay.Common.Constants.{zero_address}
use rif_relay.Common.Utils.{Address, is_same_address}
use rif_relay.Server.Relay.{
  ServerConfig, ServerEnv, ServerState, add_configured, add_lower, add_to, init_trusted_verifiers,
  is_ready, is_trusted_verifier, query,
}
use rif_relay.Server.Relay.Worker.{
  interval_handler, run_worker, tx_env, worker_for, worker_semaphore,
}

-- A round of the timer for a block above the last scanned one, whose worker throws whatever it
-- throws, leaves the server not ready, if any successful round is needed for readiness.
pub interval_handler-failed :
    (env : ServerEnv) (s : ServerState) (block : ℕ) (e : Error)
    → 1 ≤ env.config.successful_rounds_for_ready
    → let (r, t) = query env.registration.tx_env.node.block_number s in
      r ≡ ok block
      → s.last_scanned_block < block
      → (worker_semaphore env block t).0 ≡ err e
      → is_ready env (interval_handler env s) ≡ false
unfolding interval_handler worker_for is_ready tx_env
interval_handler-failed env s block e h p lt q = ground (arith, h, p, lt, q)

-- A round that starts with the semaphore off ends with it off, whether it returns or throws.
pub worker_semaphore-released :
    (env : ServerEnv) (s : ServerState) (block : ℕ)
    → s.worker_semaphore_on ≡ false
    → (worker_semaphore env block s).1.worker_semaphore_on ≡ false
unfolding worker_semaphore
worker_semaphore-released env s block h =
    elim (Result-cases (run_worker env block (record s { worker_semaphore_on = true })).0) [
      | inl (a, e) ↦ ground (arith, e, h)
      | inr (x, e) ↦ ground (arith, e, h)
    ]

any-add_to :
    (v w : Text) (vs : List Text)
    → any (λ u. text_eq u w) (add_to v vs) ≡ (any (λ u. text_eq u w) vs || text_eq v w)
any-add_to v w vs = elim (Bool-cases (any (λ u. text_eq u v) vs)) [
  | inl e ↦ elim (Bool-cases (text_eq v w)) [
    | inl f ↦
        let same : v ≡ w = (text_eq_iff v w).0 f in
        ground (arith, e, f, subst (λ x. any (λ u. text_eq u x) vs ≡ true) same e)
    | inr f ↦ ground (arith, e, f)
  ]
  | inr e ↦ ground (arith, e, any-append (λ u. text_eq u w) vs (v ∷ []))
]

any-add_lower :
    (w : Text) (vs : List Address) (set : List Text)
    → any (λ u. text_eq u w) (add_lower vs set)
      ≡ (any (λ u. text_eq u w) set || any (λ a. text_eq (to_lower a) w) vs)
unfolding add_lower
any-add_lower w [] set = ground arith
any-add_lower w (v ∷ vs) set =
    ground (arith, any-add_lower w vs (add_to (to_lower v) set), any-add_to (to_lower v) w set)

any-add_configured :
    (v : Address) (w : Text) (set : List Text)
    → any (λ u. text_eq u w) (add_configured v set)
      ≡ (any (λ u. text_eq u w) set || (not (text_eq v zero_address) && text_eq (to_lower v) w))
unfolding add_configured
any-add_configured v w set = ground (arith, any-add_to (to_lower v) w set)

-- After the initialisation exactly the listed verifiers are trusted, and the relay and the deploy
-- verifier of the configuration where these are not the zero address, all whatever their case.
pub is_trusted_verifier-init :
    (config : ServerConfig) (s : ServerState) (v : Address)
    → is_trusted_verifier v (record s { trusted_verifiers = init_trusted_verifiers config }) ≡ (
        (any (λ a. is_same_address a v) config.trusted_verifiers
          || (not (text_eq config.relay_verifier_address zero_address)
              && is_same_address config.relay_verifier_address v))
        || (not (text_eq config.deploy_verifier_address zero_address)
            && is_same_address config.deploy_verifier_address v))
unfolding is_trusted_verifier init_trusted_verifiers is_same_address
is_trusted_verifier-init config s v =
    let w = to_lower v in
    let listed = add_lower config.trusted_verifiers [] in
    ground (
      arith,
      any-add_configured config.deploy_verifier_address w
          (add_configured config.relay_verifier_address listed),
      any-add_configured config.relay_verifier_address w listed,
      any-add_lower w config.trusted_verifiers [],
    )
