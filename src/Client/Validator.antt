-- ===== src/Client/Validator.antt =====
-- src/relayclient/RelayedTransactionValidator.ts. The decoded transaction and the ABI encoding of the
-- requested call are parameters.
pub mod Sound
use rif_relay.Base.{
  Bool, Option, Text, false, if◌then◌else◌, ltb, or_else, text_eq, true, ℕ, ◌&&◌, ◌^◌,
}
use rif_relay.Base.Exec.{Result, err, nonce_too_high, nonce_too_long, ok}
use rif_relay.Common.Utils.{Address, is_same_address}

-- What ethereumjs-tx decodes of the returned raw transaction.
pub record ReturnedTx : Type 0 where
  pub to : Address
  pub payload : Text
  pub sender : Address
  pub nonce : Option ℕ

pub record Requested : Type 0 where
  pub relay_hub_address : Address
  pub encoded_call : Text
  pub relay_worker : Address
  pub relay_max_nonce : ℕ

-- An empty nonce is 0; `readUIntBE` throws beyond six bytes.
unfoldable pub received_nonce : ReturnedTx → Result ℕ
received_nonce tx =
    let nonce = or_else tx.nonce 0 in if ltb nonce (2 ^ 48) then ok nonce else err nonce_too_long

unfoldable pub check_nonce : (relay_max_nonce : ℕ) → Result ℕ → Result Bool
check_nonce most (err e) = err e
check_nonce most (ok nonce) = if ltb most nonce then err nonce_too_high else ok true

unfoldable pub validate_relay_response : Requested → ReturnedTx → Result Bool
unfolding received_nonce
validate_relay_response req tx =
    if is_same_address tx.to req.relay_hub_address
      && (text_eq req.encoded_call tx.payload && is_same_address req.relay_worker tx.sender)
    then check_nonce req.relay_max_nonce (received_nonce tx)
    else ok false
