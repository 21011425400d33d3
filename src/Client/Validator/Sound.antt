-- ===== src/Client/Validator/Sound.antt =====
-- src/relayclient/RelayedTransactionValidator.ts: which responses are valid.
use rif_relay.Base.{
  Bool-cases, arith, inl, inr, refl, text_eq, text_eq_iff, true, ℕ, ◌&&◌, ◌≡◌, ◌≤◌,
}
use rif_relay.Base.Exec.{Result, err, ok}
use rif_relay.Client.Validator.{
  Requested, ReturnedTx, check_nonce, received_nonce, validate_relay_response,
}
use rif_relay.Common.Utils.{is_same_address}

module _ (req : Requested) (tx : ReturnedTx) where
  check_nonce-ok :
      (r : Result ℕ)
      → check_nonce req.relay_max_nonce r ≡ ok true
      → (nonce : ℕ) × (r ≡ ok nonce) × (nonce ≤ req.relay_max_nonce)
  unfolding check_nonce
  check_nonce-ok (err e) h = absurd (ground (arith, h))
  check_nonce-ok (ok nonce) h = (nonce, refl, ground (arith, h))

  -- A valid response is the requested call of the hub, signed by the requested worker, with a nonce
  -- that can be read and is within the requested maximum.
  pub validate_relay_response-valid :
      validate_relay_response req tx ≡ ok true
      → (is_same_address tx.to req.relay_hub_address ≡ true)
        × (tx.payload ≡ req.encoded_call)
        × (is_same_address req.relay_worker tx.sender ≡ true)
        × ((nonce : ℕ) × (received_nonce tx ≡ ok nonce) × (nonce ≤ req.relay_max_nonce))
  unfolding validate_relay_response
  validate_relay_response-valid h =
      let at_hub = is_same_address tx.to req.relay_hub_address in
      let by_worker = is_same_address req.relay_worker tx.sender in
      let called = text_eq req.encoded_call tx.payload in
      elim (Bool-cases (at_hub && (called && by_worker))) [
        | inr e ↦ absurd (ground (arith, e, h))
        | inl e ↦ (
          ground (arith, e),
          ground (arith, e, text_eq_iff req.encoded_call tx.payload),
          ground (arith, e),
          check_nonce-ok (received_nonce tx) (ground (arith, e, h)),
        )
      ]
