-- ===== src/Commands.antt =====
-- src/cli/CommandsLogic.ts: the registration of a relay. The HTTP client's answers, the stakes of the
-- hub and what the node makes of a payment are parameters, as is the time that a request takes.
pub mod Payments
pub mod Paid
pub mod Waits
pub mod Deploy
pub mod Tests
use rif_relay.Base.{
  Bool, List, Option, Text, [], false, if◌then◌else◌, is_some, leb, ltb, none, not, or_else, some,
  suc, text_eq, true, zero, ℕ, ◌&&◌, ◌*◌, ◌++◌, ◌+◌, ◌||◌, ◌∷◌,
}
use rif_relay.Base.Exec.{
  Error, Exec, Result, already_registered, catch, err, gets, modify, no_receipt, not_running, ok,
  other_owner, out_of_fuel, pure, raise, relay_not_ready, require, wrong_chain, ◌>>=◌, ◌>>◌,
}
use rif_relay.Base.Int.{sub_ℕ, ℤ}
use rif_relay.Common.Interactor.{ChainEnv, ChainState, init, is_zero_address}
use rif_relay.Common.Utils.{Address, is_same_address}

pub record RegisterOptions : Type 0 where
  pub relay_url : Text
  pub from : Address
  pub stake : ℕ
  pub unstake_delay : ℕ
  pub funds : ℕ

pub record ManagerStake : Type 0 where
  pub staked : ℕ
  pub delay_staked : ℕ
  pub owner : Address

-- The parts of a ping's answer that are read.
pub record CommandPing : Type 0 where
  pub answers_ready : Bool
  pub chain_text : Text
  pub manager_pinged : Address
  pub hub_pinged : Address

-- What is sent to a relay's manager: a stake through the hub, or funds.
pub data Payment : Type 0 where
  stakes : (manager : Address) → (unstake_delay : ℕ) → (amount : ℤ) → Payment
  funds_it : (manager : Address) → (amount : ℕ) → Payment

-- A fund transaction that reverted has no hash.
pub record CommandEnv : Type 0 where
  pub chain : ChainEnv
  pub configured_hub : Option Address
  pub ping_answer : Text → ℕ → Result CommandPing
  pub show_id : ℕ → Text
  pub stake_info : (hub manager : Address) → ℕ → Result ManagerStake
  pub stake_answer : Payment → ℕ → Result Text
  pub fund_answer : Payment → ℕ → Result (Option Text)
  pub passes : ℕ → ℕ

pub record CommandState : Type 0 where
  pub chain : ChainState
  pub now : ℕ
  pub requests : ℕ
  pub payments : List Payment
  pub transactions : List Text

pub record RegistrationResult : Type 0 where
  pub success : Bool
  pub hashes : Option (List Text)
  pub failure : Option Error

abbrev ask_net : {A : Type 0} → (ℕ → Result A) → (ℕ → ℕ) → Exec CommandState A
ask_net answer passes s =
    (answer s.requests, record s { requests = s.requests + 1; now = s.now + passes s.requests })

abbrev on_command_chain : {A : Type 0} → Exec ChainState A → Exec CommandState A
on_command_chain m s = let (r, c) = m s.chain in (r, record s { chain = c })

-- The payment is sent, whatever becomes of it.
abbrev pay : {A : Type 0} → Payment → (ℕ → Result A) → Exec CommandState A
pay p answer s =
    (answer s.requests, record s { requests = s.requests + 1; payments = s.payments ++ p ∷ [] })

abbrev note_transaction : Text → Exec CommandState (Unit {0})
note_transaction hash = modify (λ s. record s { transactions = s.transactions ++ hash ∷ [] })

unfoldable pub is_staked : RegisterOptions → ManagerStake → Bool
is_staked opts info = leb opts.unstake_delay info.delay_staked && leb opts.stake info.staked

module _ (env : CommandEnv) where
  -- A ping that fails counts as one that is not ready.
  unfoldable pub is_relay_ready : Text → Exec CommandState Bool
  is_relay_ready url =
      catch (do p ← ask_net (env.ping_answer url) env.passes; pure p.answers_ready)
        (λ e. pure false)

  -- The loop of `waitForRelay` until the deadline.
  unfoldable pub wait_until : (fuel deadline : ℕ) → Text → Exec CommandState (Unit {0})
  wait_until zero deadline url s = (err out_of_fuel, s)
  wait_until (suc fuel) deadline url s =
      let (r, t) = is_relay_ready url s in
      let rest = wait_until fuel deadline url (record t { now = t.now + 3000 }) in
      if not (ltb s.now deadline)
      then (err relay_not_ready, s)
      else elim r [ ok true ↦ (ok tt, t) | _ ↦ rest ]

  unfoldable pub wait_for_relay : (fuel timeout : ℕ) → Text → Exec CommandState (Unit {0})
  wait_for_relay fuel timeout url s = wait_until fuel (s.now + timeout * 1000) url s

  unfoldable pub stake_if_needed :
      RegisterOptions → ManagerStake → (manager : Address) → Exec CommandState (Unit {0})
  stake_if_needed opts info manager =
      let p = stakes manager opts.unstake_delay (sub_ℕ opts.stake info.staked) in
      if is_staked opts info
      then pure tt
      else (do hash ← pay p (env.stake_answer p); note_transaction hash)

  -- False where the fund transaction reverted.
  unfoldable pub fund_if_needed :
      RegisterOptions → (manager : Address) → (balance : ℕ) → Exec CommandState Bool
  fund_if_needed opts manager balance =
      let p = funds_it manager opts.funds in
      if ltb opts.funds balance then pure true else (do
        hash ← pay p (env.fund_answer p)
        elim hash [ none ↦ pure false | some h ↦ (note_transaction h >> pure true) ])

  unfoldable pub contact : Text → Exec CommandState CommandPing
  contact url = catch (ask_net (env.ping_answer url) env.passes) (λ e. raise not_running)

  unfoldable pub initialize_chain : Exec CommandState (Unit {0})
  initialize_chain = do
    initialized ← gets (λ s. is_some s.chain.raw_tx_options)
    if initialized then pure tt else on_command_chain (init env.chain)

  abbrev chain_id_text : CommandState → Text
  chain_id_text s = elim s.chain.raw_tx_options [ none ↦ [] | some o ↦ env.show_id o.chain_id ]

  unfoldable pub stake_info_of : RegisterOptions → CommandPing → Exec CommandState ManagerStake
  stake_info_of opts response = do
    _ ← initialize_chain
    id ← gets chain_id_text
    require (text_eq response.chain_text id) wrong_chain
    info ←
        ask_net
          (env.stake_info (or_else env.configured_hub response.hub_pinged) response.manager_pinged)
          env.passes
    require (is_zero_address info.owner || is_same_address info.owner opts.from) other_owner
    pure info

  -- The payments, and whether the relay has its funds.
  unfoldable pub pay_relay :
      RegisterOptions → ManagerStake → (manager : Address) → Exec CommandState Bool
  pay_relay opts info manager = do
    _ ← stake_if_needed opts info manager
    balance ← ask_net (env.chain.balance manager) env.passes
    fund_if_needed opts manager balance

  -- A failure that is not thrown names no transactions.
  abbrev fails_with : Error → RegistrationResult
  fails_with e = record { success = false; hashes = none; failure = some e }

  unfoldable pub finish_registration :
      (fuel : ℕ) → RegisterOptions → (paid : Bool) → Exec CommandState RegistrationResult
  finish_registration fuel opts false = pure (fails_with no_receipt)
  finish_registration fuel opts true = do
    _ ← wait_for_relay fuel 60 opts.relay_url
    hashes ← gets (λ s. s.transactions)
    pure (record { success = true; hashes = some hashes; failure = none })

  unfoldable pub register_steps :
      (fuel : ℕ) → RegisterOptions → CommandPing → Exec CommandState RegistrationResult
  register_steps fuel opts response = do
    info ← stake_info_of opts response
    paid ← pay_relay opts info response.manager_pinged
    finish_registration fuel opts paid

  unfoldable pub try_register : (fuel : ℕ) → RegisterOptions → Exec CommandState RegistrationResult
  try_register fuel opts = do
    response ← contact opts.relay_url
    if response.answers_ready
        then pure (fails_with already_registered)
        else register_steps fuel opts response

  -- The transactions are those of this registration.
  unfoldable pub register_relay :
      (fuel : ℕ) → RegisterOptions → Exec CommandState RegistrationResult
  register_relay fuel opts s =
      catch (try_register fuel opts)
        (λ e t.
          (ok (record { success = false; hashes = some t.transactions; failure = some e }), t))
        (record s { transactions = [] })
