-- ===== src/Common/Interactor/Receipts.antt =====
-- src/common/ContractInteractor.ts: waiting for a receipt.
use native.Mathlib.Numerals.{unary_clauses}
use rif_relay.Base.{
  Text, add-zero, ap, arith, inl, inr, none, some, subst, suc, zero, ℕ, ◌*◌, ◌+◌, ◌<◌, ◌^◌, ◌≡◌,
}
use rif_relay.Base.Exec.{Exec, Result-cases, err, no_receipt, ok}
use rif_relay.Common.Interactor.{ChainEnv, ChainState, TransactionReceipt}

module _ (env : ChainEnv) where
  -- The loop of `getTransactionReceipt` from the tries and the backoff that are left.
  unfoldable pub get_transaction_receipt :
      Text → (retries backoff : ℕ) → Exec ChainState TransactionReceipt
  get_transaction_receipt hash zero backoff s = (err no_receipt, s)
  get_transaction_receipt hash (suc retries) backoff s =
      let asked = record s { time = s.time + 1 } in
      let rest =
        get_transaction_receipt hash retries (backoff * 2)
          (record asked { slept = s.slept + backoff }) in
      elim (env.receipt hash s.time) [
        | err e ↦ (err e, asked)
        | ok (some receipt) ↦ (ok receipt, asked)
        | ok none ↦ rest
      ]

  -- The time slept in `k` rounds from a backoff on.
  slept_in : (k backoff : ℕ) → ℕ
  slept_in zero backoff = 0
  slept_in (suc k) backoff = backoff + slept_in k (backoff * 2)

  slept_in_power : (k backoff : ℕ) → slept_in k backoff + backoff ≡ backoff * 2 ^ k
  unfolding slept_in
  slept_in_power zero backoff = omega arith
  slept_in_power (suc k) backoff =
      let twice : 2 ^ suc k ≡ 2 ^ k * 2 = simp unary_clauses (omega arith) in
      rw twice (grind (arith, slept_in_power k (backoff * 2)))

  found_after :
      (hash : Text) (k retries backoff : ℕ) (s : ChainState) (receipt : TransactionReceipt)
      → k < retries
      → ((i : ℕ) → i < k → env.receipt hash (s.time + i) ≡ ok none)
      → env.receipt hash (s.time + k) ≡ ok (some receipt)
      → get_transaction_receipt hash retries backoff s
        ≡ (ok receipt, record s { time = s.time + k + 1; slept = s.slept + slept_in k backoff })
  unfolding get_transaction_receipt slept_in
  found_after hash k zero backoff s receipt lt before now = absurd (omega arith)
  found_after hash zero (suc retries) backoff s receipt lt before now =
      let here : env.receipt hash s.time ≡ ok (some receipt) = rw (← add-zero s.time) now in
      ground (arith, here)
  found_after hash (suc k) (suc retries) backoff s receipt lt before now =
      let asked = record s { time = s.time + 1; slept = s.slept + backoff } in
      let next_index : (i : ℕ) → s.time + suc i ≡ s.time + 1 + i = λ i. omega arith in
      let next : (i : ℕ) → i < k → env.receipt hash (asked.time + i) ≡ ok none = λ i h.
        subst (λ t. env.receipt hash t ≡ ok none) (next_index i) (before (suc i) (omega arith)) in
      let here : env.receipt hash (asked.time + k) ≡ ok (some receipt) =
        subst (λ t. env.receipt hash t ≡ ok (some receipt)) (next_index k) now in
      let first : env.receipt hash s.time ≡ ok none =
        rw (← add-zero s.time) (before 0 (omega arith)) in
      ground (
        arith,
        first,
        found_after hash k retries (backoff * 2) asked receipt (omega arith) next here,
      )

  -- A receipt that comes before the tries are used up is returned at the first try that finds it,
  -- and the time slept until then doubles with each try.
  pub get_transaction_receipt_found :
      (hash : Text) (k retries backoff : ℕ) (s : ChainState) (receipt : TransactionReceipt)
      → k < retries
      → ((i : ℕ) → i < k → env.receipt hash (s.time + i) ≡ ok none)
      → env.receipt hash (s.time + k) ≡ ok (some receipt)
      → ((get_transaction_receipt hash retries backoff s).0 ≡ ok receipt)
        × ((get_transaction_receipt hash retries backoff s).1.time ≡ s.time + k + 1)
        × ((get_transaction_receipt hash retries backoff s).1.slept + backoff
            ≡ s.slept + backoff * 2 ^ k)
  get_transaction_receipt_found hash k retries backoff s receipt lt before now =
      let e = found_after hash k retries backoff s receipt lt before now in
      (ap (λ p. p.0) e, ap (λ p. p.1.time) e, rw e (omega (arith, slept_in_power k backoff)))

  -- A receipt that is returned is one that the node answered.
  pub get_transaction_receipt_sound :
      (hash : Text) (retries backoff : ℕ) (s s' : ChainState) (receipt : TransactionReceipt)
      → get_transaction_receipt hash retries backoff s ≡ (ok receipt, s')
      → (time : ℕ) × (env.receipt hash time ≡ ok (some receipt))
  unfolding get_transaction_receipt
  get_transaction_receipt_sound hash zero backoff s s' receipt h = absurd (ground arith)
  get_transaction_receipt_sound hash (suc retries) backoff s s' receipt h =
      elim (Result-cases (env.receipt hash s.time)) [
        | inr (x, e) ↦ absurd (ground (arith, e))
        | inl (some found, e) ↦ (s.time, ground (arith, e))
        | inl (none, e) ↦
            get_transaction_receipt_sound hash retries (backoff * 2)
              (record s { time = s.time + 1; slept = s.slept + backoff }) s' receipt
              (ground (arith, e))
      ]
