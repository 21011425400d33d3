-- ===== src/Server/Pending/Confirm.antt =====
-- When a stored transaction is forgotten, and what the store keeps through any history.
use rif_relay.Base.{
  Bool-cases, Option-cases, arith, false, inl, inr, ltb, none, not, refl, some, true, ℕ, ◌&&◌, ◌+◌,
  ◌<◌, ◌≡◌, ◌≤◌,
}
use rif_relay.Base.Exec.{Result-cases, ok, ◌>>=◌}
use rif_relay.Server.Node.{Receipt}
use rif_relay.Server.Pending.{
  check_confirmed, forget, same_block, settle, settle_receipt, should_recheck,
}
use rif_relay.Server.Store.{Docs, remove_txs_until_nonce}
use rif_relay.Server.Stored.{StoredTx}
use rif_relay.Server.Transactions.{TxEnv, TxState, update_transaction_with_mined_block}

module _ (env : TxEnv) where
  open env use {datastore, node, tx_config}

  -- What one round of `removeConfirmedTransactions` does to the documents.
  pub data Outcome (block : ℕ) (tx : StoredTx) (s : TxState) (docs' : Docs) : Type 0 where
    kept : docs' ≡ s.docs → Outcome block tx s docs'
    noted :
        (receipt : Receipt) (b : ℕ)
        → node.transaction tx.tx_id s.time ≡ ok (some receipt)
        → receipt.block_number ≡ some b
        → same_block b tx.mined_block ≡ false
        → block < b + tx_config.confirmations_needed
        → docs' ≡ (update_transaction_with_mined_block env tx b s).1.docs
        → Outcome block tx s docs'
    forgot :
        (receipt : Receipt) (b : ℕ)
        → node.transaction tx.tx_id s.time ≡ ok (some receipt)
        → receipt.block_number ≡ some b
        → b + tx_config.confirmations_needed ≤ block
        → docs' ≡ remove_txs_until_nonce datastore receipt.from receipt.nonce s.docs
        → Outcome block tx s docs'

  settle-Outcome :
      (block : ℕ) (tx : StoredTx) (receipt : Receipt) (b : ℕ) (s : TxState)
      → should_recheck env block tx ≡ true
      → node.transaction tx.tx_id s.time ≡ ok (some receipt)
      → receipt.block_number ≡ some b
      → Outcome block tx s (settle env block tx receipt b (record s { time = s.time + 1 })).1.docs
  unfolding settle should_recheck forget update_transaction_with_mined_block
  settle-Outcome block tx receipt b s due got mined =
      elim (Bool-cases
        (not (same_block b tx.mined_block) && ltb block (b + tx_config.confirmations_needed))) [
          | inl e ↦ rw e (noted receipt b got mined (ground (arith, e)) (ground (arith, e)) refl)
          | inr e ↦ rw e (forgot receipt b got mined (ground arith) refl)
        ]

  -- A round either leaves the documents alone, or notes the block of the receipt that the node gives of
  -- the transaction, which is not the noted one and lacks confirmations, or forgets: the last only with
  -- a receipt whose block has the confirmations needed.
  pub check_confirmed-Outcome :
      (block : ℕ) (tx : StoredTx) (s : TxState)
      → Outcome block tx s (check_confirmed env block tx s).1.docs
  unfolding check_confirmed settle_receipt ◌>>=◌
  check_confirmed-Outcome block tx s = elim (Bool-cases (should_recheck env block tx)) [
    | inr e ↦ rw e (kept refl)
    | inl due ↦ rw due (elim (Result-cases (node.transaction tx.tx_id s.time)) [
      | inr (x, e) ↦ rw e (kept refl)
      | inl (none, e) ↦ rw e (kept refl)
      | inl (some receipt, e) ↦ rw e (elim (Option-cases receipt.block_number) [
        | inl f ↦ rw (f, settle_receipt) (kept refl)
        | inr (b, f) ↦ rw (f, settle_receipt) (settle-Outcome block tx receipt b s due e f)
      ])
    ])
  ]
