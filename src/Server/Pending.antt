-- ===== src/Server/Pending.antt =====
-- src/relayserver/TransactionManager.ts: confirming and boosting the stored transactions. A
-- difference of block numbers is compared with its subtrahend moved to the other side.
pub mod History
pub mod Boost
pub mod Confirm
pub mod Consistent
use rif_relay.Base.{
  Bool, List, Option, [], false, filter, if◌then◌else◌, leb, ltb, none, not, or_else, some, true, ℕ,
  ◌&&◌, ◌*◌, ◌+◌, ◌==◌, ◌||◌, ◌∷◌,
}
use rif_relay.Base.Dict.{Dict, put}
use rif_relay.Base.Exec.{Exec, ok, pure, ◌>>=◌, ◌>>◌}
use rif_relay.Common.Utils.{Address}
use rif_relay.Server.Node.{Receipt}
use rif_relay.Server.Store.{get_all, get_all_by_signer, remove_txs_until_nonce}
use rif_relay.Server.Stored.{StoredTx}
use rif_relay.Server.Transactions.{
  Ratio, SignedDetails, TxEnv, TxState, ask, resend_transaction, resolve_new_gas_price,
  update_transaction_with_mined_block,
}

-- `receipt.blockNumber !== transaction.minedBlockNumber`.
abbrev same_block : ℕ → Option ℕ → Bool
same_block b none = false
same_block b (some m) = b == m

-- `it.gasPrice < newGasPrice`.
pub is_underpriced : Ratio → StoredTx → Bool
is_underpriced price it = ltb (it.gas_price * price.den) price.num

module _ (env : TxEnv) where
  open env use {datastore, node, tx_config}

  -- The mined block is unknown, or deep enough to look again.
  should_recheck : ℕ → StoredTx → Bool
  should_recheck block tx = elim tx.mined_block [
    | none ↦ true
    | some m ↦ leb (m + tx_config.confirmations_needed) block
  ]

  forget : Receipt → Exec TxState (Unit {0})
  forget receipt s = (
    ok tt,
    record s { docs = remove_txs_until_nonce datastore receipt.from receipt.nonce s.docs },
  )

  -- The rest of a round, for a receipt with a block number.
  settle : ℕ → StoredTx → Receipt → ℕ → Exec TxState (Unit {0})
  unfolding forget
  settle block tx receipt mined =
      if not (same_block mined tx.mined_block) && ltb block (mined + tx_config.confirmations_needed)
      then update_transaction_with_mined_block env tx mined
      else forget receipt

  settle_receipt : ℕ → StoredTx → Option Receipt → Exec TxState (Unit {0})
  unfolding settle
  settle_receipt block tx none = pure tt
  settle_receipt block tx (some receipt) = elim receipt.block_number [
    | none ↦ pure tt
    | some mined ↦ settle block tx receipt mined
  ]

  -- One round of the loop in `removeConfirmedTransactions`.
  pub check_confirmed : ℕ → StoredTx → Exec TxState (Unit {0})
  unfolding should_recheck settle_receipt
  check_confirmed block tx =
      if should_recheck block tx
      then (ask (node.transaction tx.tx_id) >>= settle_receipt block tx)
      else pure tt

  check_all : ℕ → List StoredTx → Exec TxState (Unit {0})
  check_all block [] = pure tt
  check_all block (tx ∷ txs) = do check_confirmed block tx; check_all block txs

  unfoldable pub remove_confirmed_transactions : ℕ → Exec TxState (Unit {0})
  unfolding check_all check_confirmed
  remove_confirmed_transactions block s = check_all block (get_all datastore s.docs) s

  -- The loop that resends, collecting the new details under the old transaction ids.
  resend_all : ℕ → Ratio → List StoredTx → Dict SignedDetails → Exec TxState (Dict SignedDetails)
  resend_all block price [] boosted = pure boosted
  resend_all block price (tx ∷ txs) boosted = do
    details ← resend_transaction env tx block price
    resend_all block price txs (put tx.tx_id details boosted)

  -- Sent too recently to be resent.
  pub is_recent : ℕ → StoredTx → Bool
  is_recent block tx =
      ltb block (or_else tx.boost_block tx.creation_block + tx_config.pending_timeout_blocks)

  boost_from : ℕ → ℕ → List StoredTx → Exec TxState (Dict SignedDetails)
  unfolding resend_all is_recent is_underpriced
  boost_from block nonce [] = pure []
  boost_from block nonce (oldest ∷ txs) =
      if ltb oldest.nonce nonce || is_recent block oldest
      then pure []
      else resend_all block (resolve_new_gas_price env oldest.gas_price).0
          (filter (is_underpriced (resolve_new_gas_price env oldest.gas_price).0) (oldest ∷ txs)) []

  boost_some : Address → ℕ → List StoredTx → Exec TxState (Dict SignedDetails)
  unfolding boost_from
  boost_some signer block [] = pure []
  boost_some signer block (oldest ∷ txs) = do
    nonce ← ask (node.transaction_count false signer)
    boost_from block nonce (oldest ∷ txs)

  unfoldable pub boost_underpriced_pending_transactions_for_signer :
      Address → ℕ → Exec TxState (Dict SignedDetails)
  unfolding boost_some
  boost_underpriced_pending_transactions_for_signer signer block s =
      boost_some signer block (get_all_by_signer datastore signer s.docs) s
