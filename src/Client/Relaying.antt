-- ===== src/Client/Relaying.antt =====
-- src/relayclient/RelayClient.ts: the state of the client, prices, and its other helpers. The HTTP
-- requests, the decoded transactions and the hashes are parameters, as are `toHex` of web3-utils and
-- the domain separator's hash of eth-sig-util. Log lines are left out.
pub mod Prepare
pub mod Estimates
pub mod Attempt
pub mod Loop
use rif_relay.Base.{
  Bool, List, Option, Text, [], codes, false, holds, if◌then◌else◌, includes, is_some, ltb, none,
  or_else, some, true, ℕ, ◌*◌, ◌++◌, ◌+◌, ◌/◌, ◌||◌, ◌∷◌,
}
use rif_relay.Base.Exec.{
  Error, Exec, Result, catch, err, gets, low_gas_price, message, modify, no_forwarder, no_message,
  no_signed_tx, ok, pure, ◌>>=◌, ◌>>◌,
}
use rif_relay.Client.Accounts.{AccountState, SigningEnv}
use rif_relay.Client.Known.{KnownEnv, KnownState}
use rif_relay.Client.Selection.{PingResponse, SelectionEnv}
use rif_relay.Client.Validator.{ReturnedTx}
use rif_relay.Common.Constants.{zero_address}
use rif_relay.Common.Hex.{hex_text, parse_int}
use rif_relay.Common.Interactor.{
  CallPrice, ChainEnv, ChainState, EstimateGasParams, as_hex, ask, init, is_zero_address, not_given,
  send_signed_transaction,
}
use rif_relay.Common.Requests.{AnyTransactionRequest}
use rif_relay.Common.Utils.{Address}

-- `EnvelopingTransactionDetails`. Decimal texts are the numbers that they stand for.
pub record TransactionDetails : Type 0 where
  pub from : Address
  pub payload : Text
  pub to : Address
  pub token_contract : Option Address
  pub token_amount : Option ℕ
  pub token_gas : Option ℕ
  pub recoverer : Option Address
  pub index : Option ℕ
  pub value : Option ℕ
  pub gas : Option Text
  pub gas_price : Option Text
  pub relay_hub : Option Address
  pub call_forwarder : Option Address
  pub call_verifier : Option Address
  pub is_smart_wallet_deploy : Option Bool
  pub smart_wallet_address : Option Address
  pub use_enveloping : Option Bool
  pub force_gas_price : Option Text
  pub force_gas : Option Text
  pub only_preferred_relays : Option Bool
  pub retries : Option ℕ
  pub initial_backoff : Option ℕ

pub data RelayEvent : Type 0 where
  init_event : RelayEvent
  refresh_relays : RelayEvent
  done_refresh_relays : (count : ℕ) → RelayEvent
  next_relay : (url : Text) → RelayEvent
  sign_request : RelayEvent
  validate_request : RelayEvent
  send_to_relayer : (url : Text) → RelayEvent
  relayer_response : (success : Bool) → RelayEvent

-- The body of a relay's answer.
pub record RelayBody : Type 0 where
  pub signed_tx : Option Text
  pub error : Option Text

pub record ClientConfig : Type 0 where
  pub gas_price_factor_percent : ℕ
  pub min_gas_price : Option ℕ
  pub max_relay_nonce_gap : ℕ
  pub relay_hub_address : Address
  pub relay_verifier_address : Address
  pub deploy_verifier_address : Address

-- The configuration, the parts that the client is built from, and what the outside answers.
pub record ClientEnv : Type 0 where
  pub config : ClientConfig
  pub chain : ChainEnv
  pub signing : SigningEnv
  pub known : KnownEnv
  pub selection : TransactionDetails → SelectionEnv
  pub chain_id : ℕ
  pub to_hex : ℕ → Text
  pub domain_separator_hash : Address → ℕ → Text
  pub relay_answer : (url : Text) → AnyTransactionRequest → ℕ → Result RelayBody
  pub decode_transaction : Text → Result ReturnedTx
  pub hash_of : Text → Text
  pub clock : ℕ → ℕ

-- What a relayed transaction works on, less the selection, which each one starts anew.
pub record Session : Type 0 where
  pub chain : ChainState
  pub accounts : AccountState
  pub known : KnownState
  pub initialized : Bool
  pub events : List RelayEvent
  pub posts : ℕ

abbrev pub on_chain : {A : Type 0} → Exec ChainState A → Exec Session A
on_chain m s = let (r, c) = m s.chain in (r, record s { chain = c })

abbrev pub on_accounts : {A : Type 0} → Exec AccountState A → Exec Session A
on_accounts m s = let (r, a) = m s.accounts in (r, record s { accounts = a })

abbrev pub on_known : {A : Type 0} → Exec KnownState A → Exec Session A
on_known m s = let (r, k) = m s.known in (r, record s { known = k })

abbrev pub emit : RelayEvent → Exec Session (Unit {0})
emit e s = (ok tt, record s { events = s.events ++ e ∷ [] })

-- `GasPricePingFilter`, the ping filter unless another one is configured.
unfoldable pub gas_price_ping_filter : TransactionDetails → PingResponse → Result (Unit {0})
gas_price_ping_filter details ping = elim details.gas_price [
  | none ↦ ok tt
  | some text ↦
      if holds (λ price. ltb price ping.min_gas_price) (parse_int text)
      then err low_gas_price
      else ok tt
]

unfoldable pub resolve_forwarder : TransactionDetails → Result Address
resolve_forwarder details =
    let forwarder = or_else details.call_forwarder zero_address in
    if is_zero_address forwarder then err no_forwarder else ok forwarder

abbrev pub is_deploy : TransactionDetails → Bool
is_deploy details = or_else details.is_smart_wallet_deploy false

abbrev pub call_price : Option Text → CallPrice
call_price none = not_given
call_price (some text) = as_hex text

unfoldable pub get_estimate_gas_params : TransactionDetails → Result EstimateGasParams
get_estimate_gas_params details = elim (resolve_forwarder details) [
  | err e ↦ err e
  | ok forwarder ↦ ok (record {
    from = forwarder;
    to = details.to;
    gas_price = call_price details.gas_price;
    payload = details.payload;
  })
]

-- The rounded price of the network and its factor, or the configured least price.
unfoldable pub client_gas_price : ClientConfig → ℕ → ℕ
client_gas_price config network =
    let price = (network * (config.gas_price_factor_percent + 100) + 50) / 100 in
    elim config.min_gas_price [
      | none ↦ price
      | some least ↦ if ltb price least then least else price
    ]

-- The relay answers with a signed transaction, or with an error that its message names.
unfoldable pub signed_tx_of : RelayBody → Result Text
signed_tx_of body = elim body.error [
  | some text ↦ err (message (codes "Got error response from relay: " ++ text))
  | none ↦ elim body.signed_tx [ none ↦ err no_signed_tx | some tx ↦ ok tx ]
]

-- A wrong nonce or a transaction that the node knows.
unfoldable pub is_wrong_nonce : Error → Bool
is_wrong_nonce (message text) =
    includes (codes "the tx doesn't have the correct nonce") text
    || includes (codes "known transaction") text
is_wrong_nonce e = false

-- An error with no message, or with one that names a timeout.
unfoldable pub is_timeout : Error → Bool
is_timeout no_message = true
is_timeout (message text) = includes (codes "timeout") text
is_timeout e = false

pub record Broadcast : Type 0 where
  pub has_receipt : Bool
  pub broadcast_error : Option Error
  pub wrong_nonce : Bool

abbrev pub was_broadcast : Broadcast
was_broadcast = record { has_receipt = true; broadcast_error = none; wrong_nonce = false }

module _ (env : ClientEnv) where
  unfoldable pub calculate_gas_price : Exec ChainState Text
  unfolding client_gas_price
  calculate_gas_price = do
    network ← ask env.chain.gas_price
    pure (hex_text (client_gas_price env.config network))

  unfoldable pub client_init : Exec Session (Unit {0})
  client_init = do
    initialized ← gets (λ s. s.initialized)
    if initialized then pure tt else (do
      emit init_event
      on_chain (init env.chain)
      modify (λ s. record s { initialized = true }))

  -- Mined, or in the mempool; both requests are made.
  unfoldable pub is_already_submitted : Text → Exec ChainState Bool
  is_already_submitted hash = do
    receipt ← ask (env.chain.receipt hash)
    pending ← ask (env.chain.transaction_found hash)
    pure (is_some receipt || pending)

  unfoldable pub submit : Text → Exec ChainState Broadcast
  submit raw = do
    submitted ← is_already_submitted (env.hash_of raw)
    if submitted
        then pure was_broadcast
        else (send_signed_transaction env.chain raw >> pure was_broadcast)

  unfoldable pub broadcast_raw_tx : Text → Exec ChainState Broadcast
  unfolding submit
  broadcast_raw_tx raw = catch (submit raw) (λ e.
      pure
        (record { has_receipt = false; broadcast_error = some e; wrong_nonce = is_wrong_nonce e }))

  -- `forceGasPrice ?? await this._calculateGasPrice()`.
  unfoldable pub price_for : TransactionDetails → Exec Session Text
  price_for details = elim details.force_gas_price [
    | some price ↦ pure price
    | none ↦ on_chain calculate_gas_price
  ]
