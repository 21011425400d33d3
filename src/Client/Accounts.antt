-- ===== src/Client/Accounts.antt =====
-- src/relayclient/AccountManager.ts, and the signing request of src/common/Utils.ts. Wallets and
-- signatures are those of ethereumjs-wallet and eth-sig-util, which are parameters, as is what the
-- provider answers.
pub mod Signs
use rif_relay.Base.{
  List, Option, Text, [], find, map, none, or_else, some, to_lower, ℕ, ◌++◌, ◌+◌, ◌∷◌,
}
use rif_relay.Base.Exec.{
  Error, Exec, Result, catch, err, gets, invalid_keypair, lift, modify, no_message, ok, pure, raise,
  require, sign_failed, wrong_signature, ◌>>=◌, ◌>>◌,
}
use rif_relay.Common.Requests.{AnyRequest, relay_data_of, sender_of}
use rif_relay.Common.Utils.{Address, is_same_address}

pub record AccountKeypair : Type 0 where
  pub private_key : Text
  pub address : Address

-- What is signed: `TypedRequestData` and `TypedDeployRequestData`.
pub record TypedData : Type 0 where
  pub chain_id : ℕ
  pub verifier : Address
  pub request : AnyRequest

-- The answer that the provider's callback gets.
pub record JsonRpcResponse : Type 0 where
  pub error : Option Error
  pub result : Text

pub record RpcAnswer : Type 0 where
  pub error : Option Error
  pub response : Option JsonRpcResponse

pub record SigningEnv : Type 0 where
  pub chain_id : ℕ
  pub wallet_address : (private_key : Text) → Address
  pub generate : ℕ → Text
  pub sign_typed_data : (private_key : Text) → TypedData → Result Text
  pub recover_typed_signature : TypedData → (signature : Text) → Result Address
  pub provider_answer : TypedData → ℕ → RpcAnswer

pub record AccountState : Type 0 where
  pub accounts : List AccountKeypair
  pub requests : ℕ

-- The callback of `getEip712Signature`.
unfoldable pub get_eip712_signature : RpcAnswer → Result Text
get_eip712_signature answer = elim answer.response [
  | none ↦ err (or_else answer.error no_message)
  | some response ↦ elim response.error [
    | some e ↦ err e
    | none ↦ elim answer.error [ some e ↦ err e | none ↦ ok response.result ]
  ]
]

-- `accounts.find(account => isSameAddress(account.address, from))`.
unfoldable pub keypair_of : List AccountKeypair → Address → Option AccountKeypair
keypair_of accounts from = find (λ k. is_same_address k.address from) accounts

module _ (env : SigningEnv) where
  unfoldable pub add_account : AccountKeypair → Exec AccountState (Unit {0})
  add_account k = do
    require (is_same_address (env.wallet_address k.private_key) k.address) invalid_keypair
    modify (λ s. record s { accounts = s.accounts ++ k ∷ [] })

  -- The keypair of a generated wallet.
  unfoldable pub new_keypair : ℕ → AccountKeypair
  new_keypair n = record {
    private_key = env.generate n;
    address = env.wallet_address (env.generate n);
  }

  unfoldable pub new_account : Exec AccountState AccountKeypair
  unfolding new_keypair
  new_account = do
    keypair ← gets (λ s. new_keypair s.requests)
    modify (λ s. record s { requests = s.requests + 1 })
    add_account keypair
    pure keypair

  unfoldable pub get_accounts : AccountState → List Address
  get_accounts s = map (λ k. k.address) s.accounts

  unfoldable pub typed_data : AnyRequest → TypedData
  typed_data request = record {
    chain_id = env.chain_id;
    verifier = (relay_data_of request).call_forwarder;
    request = request;
  }

  unfoldable pub sign_with_provider : TypedData → Exec AccountState Text
  sign_with_provider signed s = (
    get_eip712_signature (env.provider_answer signed s.requests),
    record s { requests = s.requests + 1 },
  )

  -- With a key of its own where there is one, else by the provider.
  unfoldable pub sign_data : Option AccountKeypair → TypedData → Exec AccountState Text
  sign_data (some k) signed = lift (env.sign_typed_data k.private_key signed)
  sign_data none signed = sign_with_provider signed

  -- The `try` of `sign`: a signature and the address that is recovered from it.
  unfoldable pub sign_and_recover :
      Option AccountKeypair → TypedData → Exec AccountState (Text × Address)
  sign_and_recover keypair signed = do
    signature ← sign_data keypair signed
    rec ← lift (env.recover_typed_signature signed signature)
    pure (signature, rec)

  unfoldable pub sign : AnyRequest → Exec AccountState Text
  unfolding typed_data
  sign request = do
    keypair ← gets (λ s. keypair_of s.accounts (sender_of request))
    (signature, rec) ←
        catch (sign_and_recover keypair (typed_data request)) (λ e. raise (sign_failed e))
    require (is_same_address (to_lower (sender_of request)) rec) wrong_signature
    pure signature
