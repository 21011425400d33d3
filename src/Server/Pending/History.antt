-- ===== src/Server/Pending/History.antt =====
-- Histories of the transaction manager: the locked parts of sends, interleaved with everything else
-- that it does.
use rif_relay.Base.{
  List, Option, Option-cases, Text, [], arith, inl, inr, none, some, subst, sym, ℕ, ◌+◌, ◌∙◌, ◌∷◌,
  ◌≡◌, ◌≢◌, ◌≤◌,
}
use rif_relay.Base.Dict.{Dict, put}
use rif_relay.Base.Exec.{Result, Result-cases, err, ok}
use rif_relay.Base.Steps.{Steps, Steps-bind, Steps-if, Steps-pure}
use rif_relay.Common.Utils.{Address}
use rif_relay.Server.Node.{Receipt}
use rif_relay.Server.Pending.{
  boost_from, boost_some, boost_underpriced_pending_transactions_for_signer, check_all,
  check_confirmed, forget, remove_confirmed_transactions, resend_all, settle_receipt,
}
use rif_relay.Server.Store.{get_all, get_all_by_signer}
use rif_relay.Server.Stored.{StoredTx}
use rif_relay.Server.Transactions.{
  IsEthTx, Ratio, SendDetails, SignedDetails, TxEnv, TxState, sign_and_store,
  update_transaction_with_mined_block,
}
use rif_relay.Server.Transactions.Nonces.{
  IsKnown, Rises, Rises-IsPreorder, ask-Rises, next_nonce, resend_transaction-Rises,
  sign_and_store-Rises, sign_and_store_nonce,
}

update_mined-Rises :
    (env : TxEnv) (tx : StoredTx) (mined : ℕ)
    → Steps Rises (update_transaction_with_mined_block env tx mined)
unfolding update_transaction_with_mined_block
update_mined-Rises env tx mined = record { at = λ s a. (omega arith, λ h. h) }

forget-Rises : (env : TxEnv) (receipt : Receipt) → Steps Rises (forget env receipt)
unfolding forget
forget-Rises env receipt = record { at = λ s a. (omega arith, λ h. h) }

module _ (env : TxEnv) where
  settle_receipt-Rises :
      (block : ℕ) (tx : StoredTx) (r : Option Receipt) → Steps Rises (settle_receipt env block tx r)
  unfolding settle_receipt
  settle_receipt-Rises block tx none = Steps-pure Rises Rises-IsPreorder tt
  settle_receipt-Rises block tx (some receipt) = elim (Option-cases receipt.block_number) [
    | inl e ↦ rw (e, settle_receipt) (Steps-pure Rises Rises-IsPreorder tt)
    | inr (m, e) ↦
        rw (e, settle_receipt)
          (Steps-if Rises Rises-IsPreorder _ _ _ (λ _. update_mined-Rises env tx m)
            (λ _. forget-Rises env receipt))
  ]

  check_confirmed-Rises : (block : ℕ) (tx : StoredTx) → Steps Rises (check_confirmed env block tx)
  unfolding check_confirmed
  check_confirmed-Rises block tx = search (
    Steps-if Rises Rises-IsPreorder,
    Steps-bind Rises Rises-IsPreorder,
    Steps-pure Rises Rises-IsPreorder,
    ask-Rises,
    settle_receipt-Rises,
  )

  check_all-Rises : (block : ℕ) (txs : List StoredTx) → Steps Rises (check_all env block txs)
  unfolding check_all
  check_all-Rises block [] = Steps-pure Rises Rises-IsPreorder tt
  check_all-Rises block (tx ∷ txs) =
      Steps-bind Rises Rises-IsPreorder _ _ (check_confirmed-Rises block tx)
        (λ _. check_all-Rises block txs)

  resend_all-Rises :
      (block : ℕ) (price : Ratio) (txs : List StoredTx) (boosted : Dict SignedDetails)
      → Steps Rises (resend_all env block price txs boosted)
  unfolding resend_all
  resend_all-Rises block price [] boosted = Steps-pure Rises Rises-IsPreorder boosted
  resend_all-Rises block price (tx ∷ txs) boosted =
      Steps-bind Rises Rises-IsPreorder _ _ (resend_transaction-Rises env tx block price)
        (λ d. resend_all-Rises block price txs (put tx.tx_id d boosted))

  boost_from-Rises :
      (block nonce : ℕ) (txs : List StoredTx) → Steps Rises (boost_from env block nonce txs)
  unfolding boost_from
  boost_from-Rises block nonce [] = Steps-pure Rises Rises-IsPreorder []
  boost_from-Rises block nonce (oldest ∷ txs) =
      search (Steps-if Rises Rises-IsPreorder, Steps-pure Rises Rises-IsPreorder, resend_all-Rises)

  boost_some-Rises :
      (signer : Address) (block : ℕ) (txs : List StoredTx)
      → Steps Rises (boost_some env signer block txs)
  unfolding boost_some
  boost_some-Rises signer block [] = Steps-pure Rises Rises-IsPreorder []
  boost_some-Rises signer block (oldest ∷ txs) =
      Steps-bind Rises Rises-IsPreorder _ _ (ask-Rises _)
        (λ nonce. boost_from-Rises block nonce (oldest ∷ txs))

-- What the manager does between two locked parts: it broadcasts, confirms and boosts.
pub data Event : Type 0 where
  locks : SendDetails → ℕ → Event
  confirms : ℕ → Event
  boosts : Address → ℕ → Event

abbrev keep_stored : Result (StoredTx × Text) → List StoredTx → List StoredTx
keep_stored (ok (stored, raw)) rest = stored ∷ rest
keep_stored (err e) rest = rest

-- The state after one of these, returned or thrown.
unfoldable pub after : TxEnv → Event → TxState → TxState
after env (locks details price) s = (sign_and_store env details price s).1
after env (confirms block) s = (remove_confirmed_transactions env block s).1
after env (boosts signer block) s =
    (boost_underpriced_pending_transactions_for_signer env signer block s).1

unfoldable pub final : TxEnv → List Event → TxState → TxState
unfolding after
final env [] s = s
final env (event ∷ events) s = final env events (after env event s)

-- The transactions that a history signs and stores, in order.
unfoldable pub run : TxEnv → List Event → TxState → List StoredTx
run env [] s = []
run env (locks details price ∷ events) s =
    let (r, s') = sign_and_store env details price s in keep_stored r (run env events s')
run env (confirms block ∷ events) s = run env events (remove_confirmed_transactions env block s).1
run env (boosts signer block ∷ events) s =
    run env events (boost_underpriced_pending_transactions_for_signer env signer block s).1

-- The nonces of `a`'s transactions start at `n` or above and go up.
abbrev pub Ascends : Address → ℕ → List StoredTx → Type 0
Ascends a n [] = Unit
Ascends a n (t ∷ ts) =
    (t.from ≡ a → (n ≤ t.nonce) × Ascends a (t.nonce + 1) ts) × (t.from ≢ a → Ascends a n ts)

Ascends-mono :
    (a : Address) (m n : ℕ) (ts : List StoredTx) → m ≤ n → Ascends a n ts → Ascends a m ts
Ascends-mono a m n [] h k = tt
Ascends-mono a m n (t ∷ ts) h k =
    (λ e. (omega (arith, (k.0 e).0), (k.0 e).1), λ e. Ascends-mono a m n ts h (k.1 e))

-- Whoever sends has a nonce.
abbrev pub SendersKnown : List Event → TxState → Type 0
SendersKnown [] s = Unit
SendersKnown (locks details price ∷ events) s = IsKnown details.signer s × SendersKnown events s
SendersKnown (confirms block ∷ events) s = SendersKnown events s
SendersKnown (boosts signer block ∷ events) s = SendersKnown events s

SendersKnown-Rises :
    (events : List Event) (s t : TxState)
    → Rises s t
    → SendersKnown events s
    → SendersKnown events t
SendersKnown-Rises [] s t up k = tt
SendersKnown-Rises (locks details price ∷ events) s t up k =
    ((up details.signer).1 k.0, SendersKnown-Rises events s t up k.1)
SendersKnown-Rises (confirms block ∷ events) s t up k = SendersKnown-Rises events s t up k
SendersKnown-Rises (boosts signer block ∷ events) s t up k = SendersKnown-Rises events s t up k

module _ (env : TxEnv) (law : IsEthTx env.eth) (a : Address) where
  locks-Ascends :
      (details : SendDetails) (price : ℕ) (s s' : TxState) (stored : StoredTx) (raw : Text)
      (ts : List StoredTx)
      → IsKnown details.signer s
      → sign_and_store env details price s ≡ (ok (stored, raw), s')
      → Rises s s'
      → Ascends a (next_nonce a s') ts
      → Ascends a (next_nonce a s) (stored ∷ ts)
  locks-Ascends details price s s' stored raw ts known e up h =
      let (low, next, by) = sign_and_store_nonce env law details price s s' stored raw known e in
      (
        λ q.
            let same : details.signer ≡ a = sym by ∙ q in
            (
              subst (λ b. next_nonce b s ≤ stored.nonce) same low,
              subst (λ n. Ascends a n ts)
                  (subst (λ b. next_nonce b s' ≡ stored.nonce + 1) same next) h,
            ),
        λ _. Ascends-mono a _ _ ts (up a).0 h,
      )

  -- Where ethereumjs-tx keeps nonces, from a state in which whoever sends has a nonce, and through
  -- any answers of the node and any errors, the nonces that one signer's transactions get are at
  -- least its next one and strictly ascend.
  pub run-Ascends :
      (events : List Event) (s : TxState)
      → SendersKnown events s
      → Ascends a (next_nonce a s) (run env events s)
  unfolding run remove_confirmed_transactions boost_underpriced_pending_transactions_for_signer
  run-Ascends [] s known = tt
  run-Ascends (locks details price ∷ events) s (known, more) =
      let up = (sign_and_store-Rises env details price).at s in
      let rest =
        run-Ascends events (sign_and_store env details price s).1
          (SendersKnown-Rises events s _ up more) in
      elim (Result-cases (sign_and_store env details price s).0) [
        | inl ((stored, raw), e) ↦ rw e (
            locks-Ascends details price s _ stored raw _ known
              (λ i. (e i, (sign_and_store env details price s).1)) up rest)
        | inr (x, e) ↦ rw e (Ascends-mono a _ _ _ (up a).0 rest)
      ]
  run-Ascends (confirms block ∷ events) s known =
      let up = (check_all-Rises env block (get_all env.datastore s.docs)).at s in
      Ascends-mono a _ _ _ (up a).0 (run-Ascends events _ (SendersKnown-Rises events s _ up known))
  run-Ascends (boosts signer block ∷ events) s known =
      let up =
        (boost_some-Rises env signer block (get_all_by_signer env.datastore signer s.docs)).at s in
      Ascends-mono a _ _ _ (up a).0 (run-Ascends events _ (SendersKnown-Rises events s _ up known))
