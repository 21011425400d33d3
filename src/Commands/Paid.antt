-- ===== src/Commands/Paid.antt =====
-- src/cli/CommandsLogic.ts: what a successful registration has paid.
use rif_relay.Base.{
  Bool, Text, [], ap, append_assoc, arith, false, if◌then◌else◌, inl, inr, or_else, refl, sym, true,
  ℕ, ◌*◌, ◌++◌, ◌+◌, ◌||◌, ◌∙◌, ◌≡◌,
}
use rif_relay.Base.Exec.{>>=-eq-ok, Exec, Result-cases, already_registered, catch, ok, pure}
use rif_relay.Commands.{
  CommandEnv, CommandPing, CommandState, ManagerStake, RegisterOptions, RegistrationResult, contact,
  fails_with, finish_registration, pay_relay, register_relay, register_steps, stake_if_needed,
  stake_info_of, try_register, wait_for_relay,
}
use rif_relay.Commands.Payments.{
  fund_if_needed-payments, funds_due, stake_due, stake_if_needed-payments, stake_info_of-allowed,
  wait_until-ready,
}
use rif_relay.Common.Interactor.{is_zero_address}
use rif_relay.Common.Utils.{Address, is_same_address}

module _ (env : CommandEnv) where
  -- What was paid between two states, and why: the first request is a ping, which names the manager,
  -- and the last one a ping too.
  pub record IsPaid (opts : RegisterOptions) (s t : CommandState) : Type 0 where
    pub response : CommandPing
    pub info : ManagerStake
    pub balance : ℕ
    pub time_staked : ℕ
    pub time_balance : ℕ
    pub time_ready : ℕ
    pub last_ping : CommandPing
    pub contacted : env.ping_answer opts.relay_url s.requests ≡ ok response
    pub was_waiting : response.answers_ready ≡ false
    pub was_staked :
        env.stake_info
          (or_else env.configured_hub response.hub_pinged)
          response.manager_pinged
          time_staked
        ≡ ok info
    pub no_other : (is_zero_address info.owner || is_same_address info.owner opts.from) ≡ true
    pub had : env.chain.balance response.manager_pinged time_balance ≡ ok balance
    pub paid :
        t.payments
        ≡ s.payments
          ++ (stake_due opts info response.manager_pinged
              ++ funds_due opts response.manager_pinged balance)
    pub pinged : env.ping_answer opts.relay_url time_ready ≡ ok last_ping
    pub is_up : last_ping.answers_ready ≡ true
    pub is_last : t.requests ≡ time_ready + 1

  -- Where it succeeds, both payments went through, and the relay is ready.
  finish_registration-ready :
      (fuel : ℕ) (opts : RegisterOptions) (paid : Bool) (s t : CommandState)
      (result : RegistrationResult)
      → finish_registration env fuel opts paid s ≡ (ok result, t)
      → result.success ≡ true
      → (paid ≡ true)
        × (t.payments ≡ s.payments)
        × ((p : CommandPing) × (time : ℕ) × (env.ping_answer opts.relay_url time ≡ ok p)
            × (p.answers_ready ≡ true)
            × (t.requests ≡ time + 1))
  unfolding finish_registration wait_for_relay
  finish_registration-ready fuel opts false s t result h success =
      absurd (ground (arith, h, success))
  finish_registration-ready fuel opts true s t result h success =
      let (u, e1, h1) = >>=-eq-ok (wait_for_relay env fuel 60 opts.relay_url) _ s h in
      let (same, (ping, time, answered, up, last_one)) =
        wait_until-ready env fuel (s.now + 60 * 1000) opts.relay_url s _ u e1 in
      let (hashes, e2, h2) = >>=-eq-ok _ _ _ h1 in
      let last : (wait_for_relay env fuel 60 opts.relay_url s).1 ≡ t = λ i. (h2 i).1 in
      (
        refl,
        ap (λ q. q.payments) (sym last) ∙ same,
        (ping, time, answered, up, ap (λ q. q.requests) (sym last) ∙ last_one),
      )

  pay_relay-payments :
      (opts : RegisterOptions) (info : ManagerStake) (manager : Address) (s s' : CommandState)
      → pay_relay env opts info manager s ≡ (ok true, s')
      → (balance : ℕ) × (time : ℕ) × (env.chain.balance manager time ≡ ok balance)
        × (s'.payments
            ≡ s.payments ++ (stake_due opts info manager ++ funds_due opts manager balance))
  unfolding pay_relay
  pay_relay-payments opts info manager s s' h =
      let (u, e1, h1) = >>=-eq-ok (stake_if_needed env opts info manager) _ s h in
      let t = (stake_if_needed env opts info manager s).1 in
      let (balance, e2, h2) = >>=-eq-ok _ _ _ h1 in
      let asked = record t { requests = t.requests + 1; now = t.now + env.passes t.requests } in
      (
        balance,
        t.requests,
        λ i. (e2 i).0,
        fund_if_needed-payments env opts manager balance asked s' h2
            ∙ ap (λ ps. ps ++ funds_due opts manager balance)
                (stake_if_needed-payments env opts info manager s t u e1)
            ∙ append_assoc s.payments (stake_due opts info manager)
                (funds_due opts manager balance),
      )

  register_steps-IsPaid :
      (fuel : ℕ) (opts : RegisterOptions) (response : CommandPing) (r s t : CommandState)
      (result : RegistrationResult)
      → env.ping_answer opts.relay_url r.requests ≡ ok response
      → response.answers_ready ≡ false
      → s.payments ≡ r.payments
      → register_steps env fuel opts response s ≡ (ok result, t)
      → result.success ≡ true
      → IsPaid opts r t
  unfolding register_steps
  register_steps-IsPaid fuel opts response r s t result contacted waits before h success =
      let manager = response.manager_pinged in
      let (info, e1, h1) = >>=-eq-ok (stake_info_of env opts response) _ s h in
      let known = (stake_info_of env opts response s).1 in
      let (untouched, (time_staked, staked_), allowed) =
        stake_info_of-allowed env opts response s known info e1 in
      let (through, e2, h2) = >>=-eq-ok (pay_relay env opts info manager) _ known h1 in
      let settled_ = (pay_relay env opts info manager known).1 in
      let (yes_, same, (ping, time_ready, answered, up, last_one)) =
        finish_registration-ready fuel opts through settled_ t result h2 success in
      let (balance, time_balance, had, paid) =
        pay_relay-payments opts info manager known settled_
          (e2 ∙ ap (λ b. (ok b, settled_)) yes_) in
      record {
        response = response;
        info = info;
        balance = balance;
        time_staked = time_staked;
        time_balance = time_balance;
        time_ready = time_ready;
        last_ping = ping;
        contacted = contacted;
        was_waiting = waits;
        was_staked = staked_;
        no_other = allowed;
        had = had;
        paid =
            same
            ∙ paid
            ∙ ap (λ ps. ps ++ (stake_due opts info manager ++ funds_due opts manager balance))
                (untouched ∙ before);
        pinged = answered;
        is_up = up;
        is_last = last_one;
      }

  contact-pinged :
      (url : Text) (s s' : CommandState) (response : CommandPing)
      → contact env url s ≡ (ok response, s')
      → (env.ping_answer url s.requests ≡ ok response) × (s'.payments ≡ s.payments)
  unfolding contact catch
  contact-pinged url s s' response h = elim (Result-cases (env.ping_answer url s.requests)) [
    | inl (p, e) ↦ (ground (arith, e, h), ground (arith, e, h))
    | inr (x, e) ↦ absurd (ground (arith, e, h))
  ]

  unless_ready :
      (b : Bool) (m : Exec CommandState RegistrationResult) (s t : CommandState)
      (result : RegistrationResult)
      → (if b then pure (fails_with env already_registered) else m) s ≡ (ok result, t)
      → result.success ≡ true
      → (b ≡ false) × (m s ≡ (ok result, t))
  unless_ready true m s t result h success = absurd (ground (arith, h, success))
  unless_ready false m s t result h success = (refl, h)

  -- A registration that succeeds first pinged the relay, which was not ready and has no other owner; the
  -- manager of that ping was sent the missing stake unless stake and delay were enough, then the funds
  -- unless its balance was above them, and nothing else; and the last request was a ping of the relay,
  -- which said that it is ready.
  pub register_relay-IsPaid :
      (fuel : ℕ) (opts : RegisterOptions) (s t : CommandState) (result : RegistrationResult)
      → register_relay env fuel opts s ≡ (ok result, t)
      → result.success ≡ true
      → IsPaid opts s t
  unfolding register_relay try_register catch
  register_relay-IsPaid fuel opts s t result h success =
      let fresh = record s { transactions = [] } in
      let tried = try_register env fuel opts fresh in
      elim (Result-cases tried.0) [
        | inr (x, e) ↦ absurd (ground (arith, e, h, success))
        | inl (r, e) ↦
            let same : tried ≡ (ok result, t) = ground (arith, e, h) in
            let (response, e1, h1) = >>=-eq-ok (contact env opts.relay_url) _ fresh same in
            let start = (contact env opts.relay_url fresh).1 in
            let (contacted, before) = contact-pinged opts.relay_url fresh start response e1 in
            let (waits, made) =
              unless_ready response.answers_ready (register_steps env fuel opts response) start t
                result h1 success in
            register_steps-IsPaid fuel opts response s start t result contacted waits before made
              success
      ]
