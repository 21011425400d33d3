-- ===== src/Server/Pending/Boost.antt =====
-- src/relayserver/TransactionManager.ts: what boosting pays, and what it hands to the node.
use native.Mathlib.Nat.{mul-le-mul_left}
use rif_relay.Base.{List, Text, [], arith, false, filter, true, ℕ, ◌*◌, ◌++◌, ◌∷◌, ◌≡◌, ◌≤◌, ◌⊎◌}
use rif_relay.Base.Dict.{Dict}
use rif_relay.Base.Exec.{err, ok}
use rif_relay.Common.Utils.{Address}
use rif_relay.Server.Keys.{key_of}
use rif_relay.Server.Pending.{is_recent, is_underpriced}
use rif_relay.Server.Stored.{StoredTx}
use rif_relay.Server.Transactions.{
  Ratio, TxEnv, TxState, keys_of, resend_params, resolve_new_gas_price,
}

-- The raw transaction that resends `tx` at a price; none where no key is managed for its sender.
pub raw_of : TxEnv → Ratio → StoredTx → List Text
raw_of env price tx = elim (key_of tx.from (keys_of env tx.from)) [
  | err e ↦ []
  | ok key ↦
      env.eth.serialize (env.eth.sign key (env.eth.new_transaction (resend_params env tx price)))
      ∷ []
]

pub raws_of : TxEnv → Ratio → List StoredTx → List Text
raws_of env price [] = []
raws_of env price (tx ∷ txs) = raw_of env price tx ++ raws_of env price txs

module _ (env : TxEnv) where
  open env use {datastore, node, tx_config}

  -- The new price is never above the configured maximum, it is the maximum where the flag says so,
  -- and with a factor of at least one it is not below an old price within the maximum.
  pub resolve_new_gas_price-IsBounded :
      (old : ℕ)
      → let (price, capped) = resolve_new_gas_price env old in
        (price.num ≤ tx_config.max_gas_price * price.den)
        × (capped ≡ true → price.num ≡ tx_config.max_gas_price * price.den)
        × (tx_config.retry.den ≤ tx_config.retry.num
            → old ≤ tx_config.max_gas_price
            → old * price.den ≤ price.num)
  unfolding resolve_new_gas_price
  resolve_new_gas_price-IsBounded old = (
    ground arith,
    ground arith,
    λ h le.
        let scaled : old * tx_config.retry.den ≤ old * tx_config.retry.num =
          mul-le-mul_left old h in
        ground arith,
  )

  -- The transactions that a boost resends: a signer's, by nonce, that pay less than the new price.
  abbrev pub resent : Ratio → List StoredTx → List StoredTx
  resent price txs = filter (is_underpriced price) txs

  -- What a boost over the stored transactions `all` handed to the node.
  abbrev pub Boosted : Address → ℕ → List StoredTx → (s s' : TxState) → Type 0
  Boosted signer block all s s' =
      (s'.sent ≡ s.sent)
      ⊎ ((oldest : StoredTx) × (txs : List StoredTx) × (nonce : ℕ) × (all ≡ oldest ∷ txs)
          × (node.transaction_count false signer s.time ≡ ok nonce)
          × (nonce ≤ oldest.nonce)
          × (is_recent env block oldest ≡ false)
          × (s'.sent
              ≡ s.sent
                ++ raws_of env (resolve_new_gas_price env oldest.gas_price).0
                    (resent (resolve_new_gas_price env oldest.gas_price).0 (oldest ∷ txs))))
