-- ===== src/Commands/Waits.antt =====
-- src/cli/CommandsLogic.ts: the wait for a relay ends.
use rif_relay.Base.{Text, arith, false, inl, inr, ltb, suc, true, zero, ℕ, ◌*◌, ◌+◌, ◌≡◌, ◌≤◌}
use rif_relay.Base.Exec.{Result-cases, catch, ◌>>=◌}
use rif_relay.Commands.{CommandEnv, CommandState, is_relay_ready, wait_until}

is_relay_ready-later :
    (env : CommandEnv) (url : Text) (s : CommandState) → s.now ≤ (is_relay_ready env url s).1.now
unfolding is_relay_ready catch ◌>>=◌
is_relay_ready-later env url s = elim (Result-cases (env.ping_answer url s.requests)) [
  | inl (p, e) ↦ ground (arith, e)
  | inr (x, e) ↦ ground (arith, e)
]

-- Each round takes three seconds at least, so a last round after those that together outlast the time
-- to the deadline is enough: with any two such numbers of rounds the wait ends alike.
pub wait_until-fuel :
    (env : CommandEnv) (f g deadline : ℕ) (url : Text) (s : CommandState)
    → deadline ≤ s.now + 3000 * f
    → deadline ≤ s.now + 3000 * g
    → wait_until env (suc f) deadline url s ≡ wait_until env (suc g) deadline url s
unfolding wait_until
wait_until-fuel env zero g deadline url s hf hg =
    let late : ltb s.now deadline ≡ false = ground arith in ground (arith, late)
wait_until-fuel env (suc f) zero deadline url s hf hg =
    let late : ltb s.now deadline ≡ false = ground arith in ground (arith, late)
wait_until-fuel env (suc f) (suc g) deadline url s hf hg =
    let (r, t) = is_relay_ready env url s in
    let later : s.now ≤ t.now = is_relay_ready-later env url s in
    let same =
      wait_until-fuel env f g deadline url (record t { now = t.now + 3000 }) (omega (arith, later))
        (omega (arith, later)) in
    elim (Result-cases r) [
      | inl (true, e) ↦ ground (arith, e)
      | inl (false, e) ↦ ground (arith, e, same)
      | inr (x, e) ↦ ground (arith, e, same)
    ]
