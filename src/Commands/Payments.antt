-- ===== src/Commands/Payments.antt =====
-- src/cli/CommandsLogic.ts: the payments of each step of a registration.
-- What is due to a manager with this stake, and with this balance.
use rif_relay.Base.{
  Bool-cases, List, Text, [], ap, append-nil, arith, if◌then◌else◌, inl, inr, is_some, ltb, none,
  or_else, some, subst, suc, sym, text_eq, true, zero, ℕ, ◌++◌, ◌+◌, ◌||◌, ◌∙◌, ◌∷◌, ◌≡◌,
}
use rif_relay.Base.Exec.{
  >>=-eq-ok, Result-cases, catch, ok, other_owner, require, require_holds, require_state,
  wrong_chain, ◌>>=◌,
}
use rif_relay.Base.Int.{sub_ℕ}
use rif_relay.Commands.{
  CommandEnv, CommandPing, CommandState, ManagerStake, Payment, RegisterOptions, fund_if_needed,
  funds_it, initialize_chain, is_relay_ready, is_staked, stake_if_needed, stake_info_of, stakes,
  wait_until,
}
use rif_relay.Common.Interactor.{is_zero_address}
use rif_relay.Common.Utils.{Address, is_same_address}

unfoldable pub stake_due : RegisterOptions → ManagerStake → (manager : Address) → List Payment
stake_due opts info manager =
    if is_staked opts info
    then []
    else stakes manager opts.unstake_delay (sub_ℕ opts.stake info.staked) ∷ []

unfoldable pub funds_due : RegisterOptions → (manager : Address) → (balance : ℕ) → List Payment
funds_due opts manager balance =
    if ltb opts.funds balance then [] else funds_it manager opts.funds ∷ []

module _ (env : CommandEnv) where
  -- The wait that returns pays nothing, and its last request is a ping that is ready.
  pub wait_until-ready :
      (fuel deadline : ℕ) (url : Text) (s s' : CommandState) (u : Unit {0})
      → wait_until env fuel deadline url s ≡ (ok u, s')
      → (s'.payments ≡ s.payments)
        × ((p : CommandPing) × (time : ℕ) × (env.ping_answer url time ≡ ok p)
            × (p.answers_ready ≡ true)
            × (s'.requests ≡ time + 1))
  unfolding wait_until is_relay_ready catch ◌>>=◌
  wait_until-ready zero deadline url s s' u h = absurd (ground arith)
  wait_until-ready (suc fuel) deadline url s s' u h =
      let asked = record s { requests = s.requests + 1; now = s.now + env.passes s.requests } in
      let later = record asked { now = asked.now + 3000 } in
      elim (Result-cases (env.ping_answer url s.requests)) [
        | inr (x, e) ↦ wait_until-ready fuel deadline url later s' u (ground (arith, e, h))
        | inl (p, e) ↦ elim (Bool-cases p.answers_ready) [
          | inl ready_ ↦ (
            ground (arith, e, ready_, h),
            (p, s.requests, e, ready_, ground (arith, e, ready_, h)),
          )
          | inr waits ↦ wait_until-ready fuel deadline url later s' u (ground (arith, e, waits, h))
        ]
      ]

  initialize_chain-payments :
      (s s' : CommandState) (u : Unit {0})
      → initialize_chain env s ≡ (ok u, s')
      → s'.payments ≡ s.payments
  unfolding initialize_chain ◌>>=◌
  initialize_chain-payments s s' u h = elim (Bool-cases (is_some s.chain.raw_tx_options)) [
    | inl done_ ↦ ground (arith, done_, h)
    | inr not_yet ↦ ground (arith, not_yet, h)
  ]

  -- The stakes are the hub's answer, and the relay has no other owner.
  pub stake_info_of-allowed :
      (opts : RegisterOptions) (response : CommandPing) (s s' : CommandState) (info : ManagerStake)
      → stake_info_of env opts response s ≡ (ok info, s')
      → (s'.payments ≡ s.payments)
        × ((time : ℕ) × (env.stake_info
                (or_else env.configured_hub response.hub_pinged)
                response.manager_pinged
                time
              ≡ ok info))
        × ((is_zero_address info.owner || is_same_address info.owner opts.from) ≡ true)
  unfolding stake_info_of
  stake_info_of-allowed opts response s s' info h =
      let (u, e1, h1) = >>=-eq-ok (initialize_chain env) _ s h in
      let untouched = initialize_chain-payments s _ u e1 in
      let (id, e2, h2) = >>=-eq-ok _ _ _ h1 in
      let (v, e3, h3) = >>=-eq-ok _ _ _ h2 in
      let (asked, e4, h4) = >>=-eq-ok _ _ _ h3 in
      let (w, e5, h5) = >>=-eq-ok _ _ _ h4 in
      let s1 = (initialize_chain env s).1 in
      let s2 = (require (text_eq response.chain_text id) wrong_chain s1).1 in
      let s3 = record s2 { requests = s2.requests + 1; now = s2.now + env.passes s2.requests } in
      let is_free = is_zero_address asked.owner || is_same_address asked.owner opts.from in
      let last : (require is_free other_owner s3).1 ≡ s' = λ i. (h5 i).1 in
      let same : asked ≡ info = ground (arith, h5) in
      (
        ap (λ q. q.payments) (sym last)
            ∙ ap (λ q. q.payments) (require_state is_free other_owner s3)
            ∙ ap (λ q. q.payments) (require_state (text_eq response.chain_text id) wrong_chain s1)
            ∙ untouched,
        (s2.requests, (λ i. (e4 i).0) ∙ ap ok same),
        subst (λ a. (is_zero_address a.owner || is_same_address a.owner opts.from) ≡ true) same
            (require_holds is_free other_owner s3 e5),
      )

  pub stake_if_needed-payments :
      (opts : RegisterOptions) (info : ManagerStake) (manager : Address) (s s' : CommandState)
      (u : Unit {0})
      → stake_if_needed env opts info manager s ≡ (ok u, s')
      → s'.payments ≡ s.payments ++ stake_due opts info manager
  unfolding stake_if_needed stake_due ◌>>=◌
  stake_if_needed-payments opts info manager s s' u h = elim (Bool-cases (is_staked opts info)) [
    | inl staked_ ↦ ground (arith, staked_, h, append-nil s.payments)
    | inr needed ↦
        let p = stakes manager opts.unstake_delay (sub_ℕ opts.stake info.staked) in
        elim (Result-cases (env.stake_answer p s.requests)) [
          | inl (hash, e) ↦ ground (arith, needed, e, h)
          | inr (x, e) ↦ absurd (ground (arith, needed, e, h))
        ]
  ]

  pub fund_if_needed-payments :
      (opts : RegisterOptions) (manager : Address) (balance : ℕ) (s s' : CommandState)
      → fund_if_needed env opts manager balance s ≡ (ok true, s')
      → s'.payments ≡ s.payments ++ funds_due opts manager balance
  unfolding fund_if_needed funds_due ◌>>=◌
  fund_if_needed-payments opts manager balance s s' h = elim (Bool-cases (ltb opts.funds balance)) [
    | inl funded ↦ ground (arith, funded, h, append-nil s.payments)
    | inr needed ↦
        let p = funds_it manager opts.funds in
        elim (Result-cases (env.fund_answer p s.requests)) [
          | inl (some hash, e) ↦ ground (arith, needed, e, h)
          | inl (none, e) ↦ absurd (ground (arith, needed, e, h))
          | inr (x, e) ↦ absurd (ground (arith, needed, e, h))
        ]
  ]
