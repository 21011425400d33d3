-- ===== src/Server/Pending/Consistent.antt =====
-- The store stays consistent through every operation of the transaction manager.
use rif_relay.Base.{
  Bool, List, Option, Option-cases, Text, [], false, inl, inr, none, some, true, ℕ, ◌++◌, ◌∷◌,
}
use rif_relay.Base.Dict.{Dict, put}
use rif_relay.Base.Exec.{Result, modify}
use rif_relay.Base.Steps.{
  IsPreorder, Keeps, Keeps-IsPreorder, Steps, Steps-bind, Steps-gets, Steps-if, Steps-lift,
  Steps-pure, Steps-require,
}
use rif_relay.Common.Utils.{Address}
use rif_relay.Server.Node.{Receipt}
use rif_relay.Server.Pending.{
  boost_from, boost_some, boost_underpriced_pending_transactions_for_signer, check_all,
  check_confirmed, forget, remove_confirmed_transactions, resend_all, settle_receipt,
}
use rif_relay.Server.Pending.History.{Event, after, boosts, confirms, final, locks}
use rif_relay.Server.Store.{IsDatastore, get_all, get_all_by_signer, put_tx}
use rif_relay.Server.Store.Laws.{
  IsConsistent, put_tx-IsConsistent, remove_txs_until_nonce-IsConsistent,
}
use rif_relay.Server.Stored.{StoredTx, Transaction}
use rif_relay.Server.Transactions.{
  Ratio, SendDetails, SignedDetails, TxEnv, TxState, ask, bump_nonce, count_and_store, on_docs,
  poll_nonce, raise_nonce, resend_transaction, sign_and_store, update_transaction_with_mined_block,
}

abbrev pub HasConsistentDocs : TxState → Type 0
HasConsistentDocs s = IsConsistent s.docs

abbrev pub Sound : TxState → TxState → Type 0
Sound = Keeps HasConsistentDocs

pub sound : IsPreorder Sound
sound = Keeps-IsPreorder HasConsistentDocs

ask-Sound : {A : Type 0} (request : ℕ → Result A) → Steps Sound (ask request)
ask-Sound request = record { at = λ s h. h }

nonces-Sound : (f : Dict ℕ → Dict ℕ) → Steps Sound (modify λ s. record s { nonces = f s.nonces })
nonces-Sound f = record { at = λ s h. h }

sent-Sound : (raw : Text) → Steps Sound (modify λ s. record s { sent = s.sent ++ raw ∷ [] })
sent-Sound raw = record { at = λ s h. h }

module _ (env : TxEnv) (law : IsDatastore env.datastore) where
  put-Sound : (t : StoredTx) (b : Bool) → Steps Sound (on_docs (put_tx env.datastore t b))
  put-Sound t b = record { at = λ s h. put_tx-IsConsistent env.datastore law t b s.docs h }

  poll_nonce-Sound : (signer : Address) → Steps Sound (poll_nonce env signer)
  unfolding poll_nonce
  poll_nonce-Sound signer = search (
    Steps-bind Sound sound,
    Steps-gets Sound sound,
    ask-Sound,
    nonces-Sound (raise_nonce signer _),
  )

  count_and_store-Sound :
      (details : SendDetails) (signed : Transaction)
      → Steps Sound (count_and_store env details signed)
  unfolding count_and_store
  count_and_store-Sound details signed =
      Steps-bind Sound sound _ _ (nonces-Sound (bump_nonce details.signer))
        (λ _. Steps-bind Sound sound _ _ (put-Sound _ false) (λ _. Steps-pure Sound sound _))

  sign_and_store-Sound :
      (details : SendDetails) (price : ℕ) → Steps Sound (sign_and_store env details price)
  unfolding sign_and_store
  sign_and_store-Sound details price =
      search
        (Steps-bind Sound sound, Steps-lift Sound sound, poll_nonce-Sound, count_and_store-Sound)
        depth 12

  resend_transaction-Sound :
      (tx : StoredTx) (block : ℕ) (price : Ratio)
      → Steps Sound (resend_transaction env tx block price)
  unfolding resend_transaction
  resend_transaction-Sound tx block price =
      search
        (
          Steps-bind Sound sound,
          Steps-lift Sound sound,
          Steps-require Sound sound,
          Steps-pure Sound sound,
          ask-Sound,
          sent-Sound,
          put-Sound,
        )
        depth 12

  forget-Sound : (receipt : Receipt) → Steps Sound (forget env receipt)
  unfolding forget
  forget-Sound receipt = record {
    at = λ s h.
        remove_txs_until_nonce-IsConsistent env.datastore law receipt.from receipt.nonce s.docs h;
  }

  update_mined-Sound :
      (tx : StoredTx) (mined : ℕ) → Steps Sound (update_transaction_with_mined_block env tx mined)
  unfolding update_transaction_with_mined_block
  update_mined-Sound tx mined = put-Sound _ true

  settle_receipt-Sound :
      (block : ℕ) (tx : StoredTx) (r : Option Receipt) → Steps Sound (settle_receipt env block tx r)
  unfolding settle_receipt
  settle_receipt-Sound block tx none = Steps-pure Sound sound tt
  settle_receipt-Sound block tx (some receipt) = elim (Option-cases receipt.block_number) [
    | inl e ↦ rw (e, settle_receipt) (Steps-pure Sound sound tt)
    | inr (m, e) ↦
        rw (e, settle_receipt)
          (Steps-if Sound sound _ _ _ (λ _. update_mined-Sound tx m) (λ _. forget-Sound receipt))
  ]

  check_confirmed-Sound : (block : ℕ) (tx : StoredTx) → Steps Sound (check_confirmed env block tx)
  unfolding check_confirmed
  check_confirmed-Sound block tx = search (
    Steps-if Sound sound,
    Steps-bind Sound sound,
    Steps-pure Sound sound,
    ask-Sound,
    settle_receipt-Sound,
  )

  check_all-Sound : (block : ℕ) (txs : List StoredTx) → Steps Sound (check_all env block txs)
  unfolding check_all
  check_all-Sound block [] = Steps-pure Sound sound tt
  check_all-Sound block (tx ∷ txs) =
      Steps-bind Sound sound _ _ (check_confirmed-Sound block tx) (λ _. check_all-Sound block txs)

  resend_all-Sound :
      (block : ℕ) (price : Ratio) (txs : List StoredTx) (boosted : Dict SignedDetails)
      → Steps Sound (resend_all env block price txs boosted)
  unfolding resend_all
  resend_all-Sound block price [] boosted = Steps-pure Sound sound boosted
  resend_all-Sound block price (tx ∷ txs) boosted =
      Steps-bind Sound sound _ _ (resend_transaction-Sound tx block price)
        (λ d. resend_all-Sound block price txs (put tx.tx_id d boosted))

  boost_from-Sound :
      (block nonce : ℕ) (txs : List StoredTx) → Steps Sound (boost_from env block nonce txs)
  unfolding boost_from
  boost_from-Sound block nonce [] = Steps-pure Sound sound []
  boost_from-Sound block nonce (oldest ∷ txs) =
      search (Steps-if Sound sound, Steps-pure Sound sound, resend_all-Sound)

  boost_some-Sound :
      (signer : Address) (block : ℕ) (txs : List StoredTx)
      → Steps Sound (boost_some env signer block txs)
  unfolding boost_some
  boost_some-Sound signer block [] = Steps-pure Sound sound []
  boost_some-Sound signer block (oldest ∷ txs) =
      Steps-bind Sound sound _ _ (ask-Sound _) (λ n. boost_from-Sound block n (oldest ∷ txs))

  -- Over a datastore that does what is documented, whatever happens, in any order and with any
  -- answers of the node, a consistent store stays consistent: no two documents share a transaction
  -- id, or a signer and nonce.
  pub final-IsConsistent :
      (events : List Event) (s : TxState)
      → IsConsistent s.docs
      → IsConsistent (final env events s).docs
  unfolding final after remove_confirmed_transactions
      boost_underpriced_pending_transactions_for_signer
  final-IsConsistent [] s h = h
  final-IsConsistent (locks details price ∷ events) s h =
      final-IsConsistent events _ ((sign_and_store-Sound details price).at s h)
  final-IsConsistent (confirms block ∷ events) s h =
      final-IsConsistent events _ ((check_all-Sound block (get_all env.datastore s.docs)).at s h)
  final-IsConsistent (boosts signer block ∷ events) s h =
      final-IsConsistent events _
        ((boost_some-Sound signer block (get_all_by_signer env.datastore signer s.docs)).at s h)
