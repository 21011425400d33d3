-- ===== src/Server/Transactions.antt =====
-- src/relayserver/TransactionManager.ts. The mutex makes the part of `sendTransaction` that it
-- guards, `sign_and_store`, one step; what other tasks do in between stands before or after it.
-- Gas prices are numbers, products by a factor exact fractions, and log lines are left out.
pub mod Nonces
use rif_relay.Base.{
  Bool, List, Option, Text, [], codes, false, holds, if◌then◌else◌, ltb, none, or_else, some,
  text_eq, to_lower, true, ℕ, ◌*◌, ◌++◌, ◌+◌, ◌∷◌, ◌≡◌,
}
use rif_relay.Base.Dict.{Dict, get, put}
use rif_relay.Base.Exec.{
  Exec, Result, err, gets, hash_mismatch, lift, modify, ok, pure, require, ◌>>=◌, ◌>>◌,
}
use rif_relay.Base.Int.{ℤ}
use rif_relay.Common.Utils.{Address}
use rif_relay.Server.Keys.{Keys, is_signer, key_of}
use rif_relay.Server.Node.{Node}
use rif_relay.Server.Store.{Datastore, Docs, put_tx}
use rif_relay.Server.Stored.{
  Metadata, ServerAction, StoredTx, Transaction, create_stored_transaction,
}

-- A price that a factor may have made fractional.
pub record Ratio : Type 0 where
  pub num : ℕ
  pub den : ℕ

-- The argument of ethereumjs-tx's constructor; `none` is an undefined nonce or an empty value.
pub record TxParams : Type 0 where
  pub to : Address
  pub value : Option ℤ
  pub gas_limit : ℕ
  pub gas_price : Ratio
  pub payload : Text
  pub nonce : Option ℕ

-- ethereumjs-tx: building, signing, hashing and serialising a transaction.
pub record EthTx : Type 0 where
  pub new_transaction : TxParams → Transaction
  pub sign : Text → Transaction → Transaction
  pub hash : Transaction → Text
  pub serialize : Transaction → Text

-- A transaction has the nonce that it is built with, and signing changes its signature alone.
pub record IsEthTx (eth : EthTx) : Type 0 where
  pub nonce_lem : (p : TxParams) (n : ℕ) → p.nonce ≡ some n → (eth.new_transaction p).nonce ≡ n
  pub sign_lem : (k : Text) (t : Transaction) → (eth.sign k t).nonce ≡ t.nonce

pub record SendDetails : Type 0 where
  pub signer : Address
  pub action : ServerAction
  pub encoded_call : Option Text
  pub destination : Address
  pub value : Option ℤ
  pub gas_limit : ℕ
  pub gas_price : Option ℕ
  pub creation_block : ℕ

pub record SignedDetails : Type 0 where
  pub transaction_hash : Text
  pub signed_tx : Text

-- The entries of the configuration that transactions depend on; `retry` is `retryGasPriceFactor`.
pub record TxConfig : Type 0 where
  pub confirmations_needed : ℕ
  pub pending_timeout_blocks : ℕ
  pub retry : Ratio
  pub max_gas_price : ℕ
  pub default_gas_limit : ℕ
  pub estimate_gas : ℕ → ℕ

pub record TxEnv : Type 0 where
  pub datastore : Datastore
  pub node : Node
  pub eth : EthTx
  pub manager_keys : Keys
  pub workers_keys : Keys
  pub tx_config : TxConfig

-- The manager's state, the raw transactions handed to the node, and the number of requests made.
pub record TxState : Type 0 where
  pub nonces : Dict ℕ
  pub docs : Docs
  pub sent : List Text
  pub time : ℕ

-- One request to the node.
abbrev pub ask {ℓ} : {A : Type ℓ} → (ℕ → Result A) → TxState → Result A × TxState
ask request s = (request s.time, record s { time = s.time + 1 })

abbrev pub on_docs : Exec Docs (Unit {0}) → Exec TxState (Unit {0})
on_docs m s = let (r, ds) = m s.docs in (r, record s { docs = ds })

-- `nonce > this.nonces[signer]`, false for a signer with no nonce.
unfoldable pub raise_nonce : Address → ℕ → Dict ℕ → Dict ℕ
raise_nonce signer nonce nonces =
    if holds (λ m. ltb m nonce) (get signer nonces) then put signer nonce nonces else nonces

-- `this.nonces[signer]++`.
unfoldable pub bump_nonce : Address → Dict ℕ → Dict ℕ
bump_nonce signer nonces = elim (get signer nonces) [
  | none ↦ nonces
  | some n ↦ put signer (n + 1) nonces
]

-- The constructor's nonces: one manager and one worker.
unfoldable pub init_nonces : (manager worker : Address) → Dict ℕ
init_nonces manager worker = put worker 0 (put manager 0 [])

abbrev ratio : ℕ → Ratio
ratio n = record { num = n; den = 1 }

module _ (env : TxEnv) where
  open env use {datastore, node, eth, manager_keys, workers_keys, tx_config}

  unfoldable pub attempt_estimate_gas : Text → Address → Exec TxState ℕ
  attempt_estimate_gas method from s = elim (node.estimate_gas method from s.time) [
    | ok gas ↦ (ok (tx_config.estimate_gas gas), record s { time = s.time + 1 })
    | err e ↦ (ok tx_config.default_gas_limit, record s { time = s.time + 1 })
  ]

  unfoldable pub poll_nonce : Address → Exec TxState (Option ℕ)
  poll_nonce signer = do
    nonce ← ask (node.transaction_count true signer)
    modify (λ s. record s { nonces = raise_nonce signer nonce s.nonces })
    gets (λ s. get signer s.nonces)

  unfoldable pub keys_of : Address → Keys
  keys_of signer = if is_signer signer manager_keys then manager_keys else workers_keys

  send_params : SendDetails → ℕ → Option ℕ → TxParams
  send_params details price nonce = record {
    to = details.destination;
    value = details.value;
    gas_limit = details.gas_limit;
    gas_price = ratio price;
    payload = or_else details.encoded_call (codes "0x");
    nonce = nonce;
  }

  pub send_metadata : SendDetails → Metadata
  send_metadata details = record {
    from = details.signer;
    attempts = 1;
    action = details.action;
    creation_block = details.creation_block;
    boost_block = none;
    mined_block = none;
  }

  -- Sign, and describe the signed transaction for the store.
  sign_details : SendDetails → ℕ → Option ℕ → Text → Transaction
  sign_details details price nonce key =
      eth.sign key (eth.new_transaction (send_params details price nonce))

  -- Count the nonce up, and store; the count stays if the store refuses.
  unfoldable pub count_and_store : SendDetails → Transaction → Exec TxState (StoredTx × Text)
  unfolding send_metadata create_stored_transaction
  count_and_store details signed = do
    let stored = create_stored_transaction eth.hash signed (send_metadata details)
    modify (λ s. record s { nonces = bump_nonce details.signer s.nonces })
    on_docs (put_tx datastore stored false)
    pure (stored, eth.serialize signed)

  -- Under `nonceMutex`: choose the nonce, sign, count the nonce up and store.
  unfoldable pub sign_and_store : SendDetails → ℕ → Exec TxState (StoredTx × Text)
  unfolding keys_of key_of sign_details send_params count_and_store
  sign_and_store details price = do
    nonce ← poll_nonce details.signer
    key ← lift (key_of details.signer (keys_of details.signer))
    count_and_store details (sign_details details price nonce key)

  -- Hand a signed transaction to the node, and compare the hash that comes back.
  unfoldable pub send_raw : StoredTx → Text → Exec TxState SignedDetails
  send_raw stored raw = do
    modify (λ s. record s { sent = s.sent ++ raw ∷ [] })
    hash ← ask (node.broadcast raw)
    require (text_eq (to_lower hash) (to_lower stored.tx_id)) hash_mismatch
    pure (record { transaction_hash = hash; signed_tx = raw })

  unfoldable pub gas_price_of : SendDetails → Exec TxState ℕ
  gas_price_of details s = elim details.gas_price [
    | none ↦ ask node.gas_price s
    | some p ↦ (ok p, s)
  ]

  unfoldable pub send_transaction : SendDetails → Exec TxState SignedDetails
  unfolding gas_price_of send_raw
  send_transaction details = do
    price ← gas_price_of details
    (stored, raw) ← sign_and_store details price
    send_raw stored raw

  unfoldable pub update_transaction_with_mined_block : StoredTx → ℕ → Exec TxState (Unit {0})
  update_transaction_with_mined_block tx mined = on_docs (
      put_tx datastore (record tx { metadata = record tx.metadata { mined_block = some mined } })
        true)

  attempt_metadata : StoredTx → ℕ → Metadata
  attempt_metadata tx block = record tx.metadata {
    attempts = tx.attempts + 1;
    boost_block = some block;
  }

  unfoldable pub update_transaction_with_attempt :
      Transaction → StoredTx → ℕ → Exec TxState StoredTx
  unfolding attempt_metadata create_stored_transaction
  update_transaction_with_attempt signed tx block = do
    let stored = create_stored_transaction eth.hash signed (attempt_metadata tx block)
    on_docs (put_tx datastore stored true)
    pure stored

  unfoldable pub resend_params : StoredTx → Ratio → TxParams
  resend_params tx price = record {
    to = tx.to;
    value = none;
    gas_limit = tx.gas;
    gas_price = price;
    payload = tx.payload;
    nonce = some tx.nonce;
  }

  unfoldable pub resend_transaction : StoredTx → ℕ → Ratio → Exec TxState SignedDetails
  unfolding keys_of key_of update_transaction_with_attempt send_raw resend_params
  resend_transaction tx block price = do
    key ← lift (key_of tx.from (keys_of tx.from))
    let signed = eth.sign key (eth.new_transaction (resend_params tx price))
    stored ← update_transaction_with_attempt signed tx block
    current ← ask (node.transaction_count false tx.from)
    send_raw stored (eth.serialize signed)

  -- The new price, and whether it is the maximum.
  unfoldable pub resolve_new_gas_price : ℕ → Ratio × Bool
  resolve_new_gas_price old =
      if ltb (tx_config.max_gas_price * tx_config.retry.den) (old * tx_config.retry.num)
      then (ratio tx_config.max_gas_price, true)
      else (record { num = old * tx_config.retry.num; den = tx_config.retry.den }, false)
