-- ===== src/Client/Provider/Deploy.antt =====
-- src/relayclient/RelayProvider.ts: the deployment of smart wallets, and their addresses.
use rif_relay.Base.{
  Bool, List, Option, Text, [], codes, drop, ltb, none, not, or_else, some, true, ℕ, ◌&&◌, ◌++◌,
  ◌==◌, ◌∷◌,
}
use rif_relay.Base.Exec.{
  Exec, Result, catch, err, lift, no_relayers, no_wallet, not_deploy, ok, raise, rejected, require,
  ◌>>=◌, ◌>>◌,
}
use rif_relay.Client.Discovery.Gap.{rounds}
use rif_relay.Client.Provider.{ProviderEnv, given_or}
use rif_relay.Client.Relaying.{Session, TransactionDetails}
use rif_relay.Client.Relaying.Loop.{RelayingResult, relay_transaction}
use rif_relay.Common.Constants.{zero_address}
use rif_relay.Common.Interactor.{is_zero_address}
use rif_relay.Common.Utils.{Address}

-- A value with its Solidity type.
pub data SolidityValue : Type 0 where
  an_address : Address → SolidityValue
  a_bytes32 : Text → SolidityValue
  a_bytes1 : Text → SolidityValue
  a_uint256 : ℕ → SolidityValue

abbrev pub sha3_null_s : Text
sha3_null_s = codes "0xc5d2460186f7233c927e7db2dcc703c0e500b653ca82273b7bfad8045d85a470"

-- `soliditySha3` and `toChecksumAddress` of web3-utils.
pub record AddressEnv : Type 0 where
  pub solidity_sha3 : List SolidityValue → Option Text
  pub to_checksum_address : Text → Address

module _ (env : AddressEnv) where
  -- The address that a factory creates from a salt: the last 20 bytes of the hash.
  unfoldable pub created_address : (factory : Address) → (salt bytecode_hash : Text) → Address
  created_address factory salt bytecode_hash =
      let hash =
        or_else
          (env.solidity_sha3 (
            a_bytes1 (codes "0xff")
            ∷ an_address factory
            ∷ a_bytes32 salt
            ∷ a_bytes32 bytecode_hash
            ∷ []))
          [] in
      env.to_checksum_address (codes "0x" ++ drop 26 hash)

  unfoldable pub calculate_custom_smart_wallet_address :
      (factory owner recoverer custom_logic : Address)
      → (wallet_index : ℕ) → (bytecode_hash : Text) → (logic_init_params_hash : Option Text)
      → Address
  unfolding created_address
  calculate_custom_smart_wallet_address factory owner recoverer logic index bytecode params =
      let salt =
        or_else
          (env.solidity_sha3 (
            an_address owner
            ∷ an_address recoverer
            ∷ an_address logic
            ∷ a_bytes32 (or_else params sha3_null_s)
            ∷ a_uint256 index
            ∷ []))
          [] in
      created_address factory salt bytecode

  unfoldable pub calculate_smart_wallet_address :
      (factory owner recoverer : Address) → (wallet_index : ℕ) → (bytecode_hash : Text) → Address
  unfolding created_address
  calculate_smart_wallet_address factory owner recoverer index bytecode =
      let salt =
        or_else (env.solidity_sha3 (an_address owner ∷ an_address recoverer ∷ a_uint256 index ∷ []))
          [] in
      created_address factory salt bytecode

module _ (env : ProviderEnv) where
  unfoldable pub deploy_details : TransactionDetails → TransactionDetails
  deploy_details details = record details {
    is_smart_wallet_deploy = some (or_else details.is_smart_wallet_deploy true);
    relay_hub = given_or details.relay_hub env.config.relay_hub_address;
    only_preferred_relays =
        some (or_else details.only_preferred_relays env.config.only_preferred_relays);
  }

  -- A token payment of which no gas is given can be estimated only for a known wallet.
  unfoldable pub lacks_wallet : TransactionDetails → Bool
  lacks_wallet details =
      not (is_zero_address (or_else details.token_contract zero_address))
      && (ltb 0 (or_else details.token_amount 0)
          && ((or_else details.token_gas 0 == 0)
              && is_zero_address (or_else details.smart_wallet_address zero_address)))

  unfoldable pub hash_of_result : RelayingResult → Result Text
  hash_of_result r = elim r.transaction [
    | none ↦ err no_relayers
    | some raw ↦ ok (env.client.hash_of raw)
  ]

  unfoldable pub deploy_smart_wallet : (fuel rounds : ℕ) → TransactionDetails → Exec Session Text
  unfolding deploy_details lacks_wallet hash_of_result
  deploy_smart_wallet fuel rounds details = do
    require (or_else details.is_smart_wallet_deploy true) not_deploy
    require (not (lacks_wallet (deploy_details details))) no_wallet
    catch
        (relay_transaction env.client fuel rounds (deploy_details details) >>= λ r.
          lift (hash_of_result r))
        (λ e. raise (rejected e))
