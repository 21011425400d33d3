-- ===== src/Server/Stored.antt =====
-- src/relayserver/StoredTransaction.ts, and the transactions of ethereumjs-tx that it records.
use rif_relay.Base.{Bool, Option, Text, arith, false, none, true, ℕ, ◌↔◌, ◌≡◌}
use rif_relay.Common.Utils.{Address}

pub data ServerAction : Type 0 where
  register_server add_worker relay_call value_transfer deposit_withdrawal penalization :
      ServerAction

unfoldable pub action_eq : ServerAction → ServerAction → Bool
action_eq register_server register_server = true
action_eq add_worker add_worker = true
action_eq relay_call relay_call = true
action_eq value_transfer value_transfer = true
action_eq deposit_withdrawal deposit_withdrawal = true
action_eq penalization penalization = true
action_eq _ _ = false

pub action_eq_iff : (a b : ServerAction) → (action_eq a b ≡ true) ↔ (a ≡ b)
unfolding action_eq
action_eq_iff a b = ground arith

-- The fields that the program reads of an ethereumjs-tx `Transaction`.
pub record Transaction : Type 0 where
  pub to : Address
  pub gas_limit : ℕ
  pub gas_price : ℕ
  pub payload : Text
  pub nonce : ℕ
  pub signature : Text

pub record Metadata : Type 0 where
  pub from : Address
  pub attempts : ℕ
  pub action : ServerAction
  pub creation_block : ℕ
  pub boost_block : Option ℕ
  pub mined_block : Option ℕ

pub record NonceSigner : Type 0 where
  pub nonce : ℕ
  pub signer : Address

pub record StoredTx : Type 0 where
  pub metadata : Metadata
  pub open metadata use *
  pub to : Address
  pub gas : ℕ
  pub gas_price : ℕ
  pub payload : Text
  pub nonce : ℕ
  pub tx_id : Text
  pub nonce_signer : Option NonceSigner

-- `hash` is `tx.hash()` of ethereumjs-tx.
unfoldable pub create_stored_transaction : (Transaction → Text) → Transaction → Metadata → StoredTx
create_stored_transaction hash tx metadata = record {
  metadata = metadata;
  to = tx.to;
  gas = tx.gas_limit;
  gas_price = tx.gas_price;
  payload = tx.payload;
  nonce = tx.nonce;
  tx_id = hash tx;
  nonce_signer = none;
}
