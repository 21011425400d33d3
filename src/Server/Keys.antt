-- ===== src/Server/Keys.antt =====
-- src/relayserver/KeyManager.ts. The HD key of ethereumjs-wallet is a parameter: the address and
-- the private key that it derives for each index. The seed and its file are in Keystore.
pub mod Laws
pub mod Keystore
use rif_relay.Base.{
  Bool, List, Option, Text, [], get_elem?, is_some, map, none, some, suc, zero, ℕ, ◌+◌,
}
use rif_relay.Base.Dict.{Dict, get, put}
use rif_relay.Base.Exec.{Result, err, not_managed, ok}
use rif_relay.Common.Utils.{Address}

pub record Wallet : Type 0 where
  pub address : Address
  pub private_key : Text

-- `_privateKeys`.
abbrev pub Keys : Type 0
Keys = Dict Text

-- The loop of `generateKeys`, over the indices from `index`.
generate_from : (ℕ → Wallet) → ℕ → ℕ → Keys → Keys
generate_from derive zero index keys = keys
generate_from derive (suc left) index keys =
    generate_from derive left (index + 1)
      (put (derive index).address (derive index).private_key keys)

unfoldable pub generate_keys : (ℕ → Wallet) → ℕ → Keys
unfolding generate_from
generate_keys derive count = generate_from derive count 0 []

unfoldable pub get_addresses : Keys → List Address
get_addresses keys = map (λ e. e.0) keys

unfoldable pub get_address : ℕ → Keys → Option Address
unfolding get_addresses
get_address index keys = get_elem? (get_addresses keys) index

unfoldable pub is_signer : Address → Keys → Bool
is_signer signer keys = is_some (get signer keys)

-- The key of a managed signer; any other signer is refused.
unfoldable pub key_of : Address → Keys → Result Text
key_of signer keys = elim (get signer keys) [ none ↦ err not_managed | some key ↦ ok key ]
