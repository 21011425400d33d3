-- ===== src/Client/Accounts/Signs.antt =====
-- src/relayclient/AccountManager.ts: signatures are the sender's, and keys belong to their addresses.
use rif_relay.Base.{
  All, All-append, Bool-cases, Text, [], ap, arith, inl, inr, text_eq, to_lower, to_lower_idem,
  true, ◌∷◌, ◌≡◌,
}
use rif_relay.Base.Exec.{Result-cases, catch, ok, ◌>>=◌}
use rif_relay.Base.Steps.{Keeps, Steps}
use rif_relay.Client.Accounts.{
  AccountKeypair, AccountState, SigningEnv, add_account, keypair_of, sign, sign_and_recover,
  sign_data, typed_data,
}
use rif_relay.Common.Requests.{AnyRequest, sender_of}
use rif_relay.Common.Utils.{Address, is_same_address}

is_same_address_lower : (a b : Address) → is_same_address (to_lower a) b ≡ is_same_address a b
unfolding is_same_address
is_same_address_lower a b = ap (λ t. text_eq t (to_lower b)) (to_lower_idem a)

module _ (env : SigningEnv) where
  -- Every account has the address of its private key.
  abbrev pub IsOwned : AccountState → Type 0
  IsOwned s =
      All (λ k. is_same_address (env.wallet_address k.private_key) k.address ≡ true) s.accounts

  pub add_account-IsOwned : (k : AccountKeypair) → Steps (Keeps IsOwned) (add_account env k)
  unfolding add_account ◌>>=◌
  add_account-IsOwned k = record {
    at = λ s h. elim (Bool-cases (is_same_address (env.wallet_address k.private_key) k.address)) [
      | inl same ↦ rw same (
          All-append (λ k. is_same_address (env.wallet_address k.private_key) k.address ≡ true)
            s.accounts (k ∷ []) h (same, tt))
      | inr other ↦ rw other h
    ];
  }

  -- A signature that is returned was made of the request for this chain and its forwarder, and the
  -- address recovered from it is the sender's.
  pub sign_of_sender :
      (request : AnyRequest) (s s' : AccountState) (signature : Text)
      → sign env request s ≡ (ok signature, s')
      → (signer : Address) × (env.recover_typed_signature (typed_data env request) signature
          ≡ ok signer)
        × (is_same_address (sender_of request) signer ≡ true)
  unfolding sign sign_and_recover catch ◌>>=◌
  sign_of_sender request s s' signature h =
      let keypair = keypair_of s.accounts (sender_of request) in
      let signed = typed_data env request in
      let made = sign_data env keypair signed s in
      elim (Result-cases made.0) [
        | inr (x, e) ↦ absurd (ground (arith, e))
        | inl (text, e) ↦ elim (Result-cases (env.recover_typed_signature signed text)) [
          | inr (x, f) ↦ absurd (ground (arith, e, f))
          | inl (signer, f) ↦
              elim (Bool-cases (is_same_address (to_lower (sender_of request)) signer)) [
                | inr other ↦ absurd (ground (arith, e, f, other))
                | inl same ↦ (
                  signer,
                  ground (arith, e, f, same),
                  rw (← is_same_address_lower (sender_of request) signer) same,
                )
              ]
        ]
      ]
