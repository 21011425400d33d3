-- ===== src/Client/Discovery.antt =====
-- src/relayclient/SmartWalletDiscovery.ts on a chain that stays as it is and a node that answers: the
-- reconnections are left out. Address derivation is a parameter. The loops take fuel.
pub mod Gap
use rif_relay.Base.{
  Bool, List, [], any, false, if◌then◌else◌, leb, ltb, not, suc, text_eq, true, zero, ℕ, ◌&&◌, ◌++◌,
  ◌+◌, ◌||◌, ◌∷◌,
}
use rif_relay.Common.Constants.{zero_address}
use rif_relay.Common.Utils.{Address}

pub record DiscoveredAccount : Type 0 where
  pub eoa_account : Address
  pub sw_accounts : List Address

-- The chain, the tokens searched, the gaps of the configuration, and the addresses: of an index
-- below an account key, and of a wallet of an owner.
pub record DiscoveryEnv : Type 0 where
  pub balance : Address → ℕ
  pub transaction_count : Address → ℕ
  pub tokens : List Address
  pub token_balance : (token owner : Address) → ℕ
  pub eoa_gap : ℕ
  pub s_wallet_gap : ℕ
  pub address_of : (account index : ℕ) → Address
  pub wallet_of : (owner : Address) → (index : ℕ) → Address

-- The list is not empty.
abbrev pub is_found : List Address → Bool
is_found [] = false
is_found (a ∷ rest) = true

module _ (env : DiscoveryEnv) where
  -- Native balance, transactions sent, or the balance in one of the tokens.
  unfoldable pub search_trx : Address → Bool
  search_trx a =
      ltb 0 (env.balance a)
      || (ltb 0 (env.transaction_count a)
          || any (λ token. ltb 0 (env.token_balance token a)) env.tokens)

  -- The loop over the wallets of an owner, in at most `fuel` rounds: those found, in order.
  unfoldable pub search_wallets : (fuel gap index : ℕ) → Address → List Address
  search_wallets zero gap index owner = []
  search_wallets (suc fuel) gap index owner =
      let w = env.wallet_of owner index in
      let hit = search_wallets fuel 0 (index + 1) owner in
      let miss = search_wallets fuel (gap + 1) (index + 1) owner in
      if leb gap env.s_wallet_gap then (if search_trx w then w ∷ hit else miss) else []

  -- The account that a round pushes, or none: an owner is noted if it or a wallet of it is active.
  unfoldable pub entry : Address → List Address → List DiscoveredAccount
  entry a wallets =
      let eoa = if search_trx a || is_found wallets then a else zero_address in
      if not (text_eq eoa zero_address) || is_found wallets
      then record { eoa_account = eoa; sw_accounts = wallets } ∷ []
      else []

  -- The loop over the addresses of an account key, in at most `fuel` rounds; its wallets are
  -- searched in at most `wfuel` rounds each.
  unfoldable pub search_account : (wfuel fuel gap index account : ℕ) → List DiscoveredAccount
  search_account wfuel zero gap index account = []
  search_account wfuel (suc fuel) gap index account =
      let a = env.address_of account index in
      let wallets = search_wallets wfuel 0 0 a in
      let gap' = if search_trx a || is_found wallets then 0 else gap + 1 in
      let rest = search_account wfuel fuel gap' (index + 1) account in
      if leb gap env.eoa_gap then entry a wallets ++ rest else []

  -- `totalTrxCount === 0 && totalSWTrxCount === 0`.
  unfoldable pub is_inactive : List DiscoveredAccount → Bool
  is_inactive [] = true
  is_inactive (d ∷ ds) =
      not (search_trx d.eoa_account) && not (is_found d.sw_accounts) && is_inactive ds

  -- The loop over the account keys of `discoverAccounts` and of `discoverAccountsFromMnemonic`,
  -- whose reader always has a key: it ends at a missing key or an inactive account.
  unfoldable pub search_accounts :
      (has_key : ℕ → Bool) → (wfuel afuel fuel account : ℕ) → List DiscoveredAccount
  search_accounts has_key wfuel afuel zero account = []
  search_accounts has_key wfuel afuel (suc fuel) account =
      let found = search_account wfuel afuel 0 0 account in
      let rest = search_accounts has_key wfuel afuel fuel (account + 1) in
      if has_key account then (if is_inactive found then found else found ++ rest) else []

  -- `discoverAccountsFromExtendedPublicKeys`: every key is searched.
  unfoldable pub search_keys : (wfuel afuel : ℕ) → List ℕ → List DiscoveredAccount
  search_keys wfuel afuel [] = []
  search_keys wfuel afuel (key ∷ keys) =
      search_account wfuel afuel 0 0 key ++ search_keys wfuel afuel keys

  -- `discoverAccountsFromMnemonic`: every account has a key.
  unfoldable pub search_mnemonic : (wfuel afuel fuel : ℕ) → List DiscoveredAccount
  search_mnemonic wfuel afuel fuel = search_accounts (λ _. true) wfuel afuel fuel 0
