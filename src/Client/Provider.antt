-- ===== src/Client/Provider.antt =====
-- src/relayclient/RelayProvider.ts: a web3 provider that relays. The original provider's answers,
-- abi-decoder, `toHex` and the hash of web3-utils are parameters. A callback that is called once is
-- the result of its method.
pub mod Deploy
pub mod Answers
use rif_relay.Base.{
  Bool, List, Option, Text, [], codes, false, if◌then◌else◌, is_some, map, none, not, or_else, some,
  text_eq, true, ℕ, ◌++◌, ◌∷◌,
}
use rif_relay.Base.Exec.{
  Error, Exec, Result, deploys_contract, destination_reverted, err, no_data, no_relayers, ok,
  rejected,
}
use rif_relay.Client.Accounts.{AccountState}
use rif_relay.Client.Discovery.Gap.{rounds}
use rif_relay.Client.Relaying.{ClientEnv, Session, TransactionDetails, on_chain}
use rif_relay.Client.Relaying.Loop.{RelayingResult, relay_transaction}
use rif_relay.Common.Constants.{wait_for_receipt_initial_backoff, wait_for_receipt_retries}
use rif_relay.Common.Events.{transaction_relayed}
use rif_relay.Common.Hex.{parse_int}
use rif_relay.Common.Interactor.{TransactionReceipt, is_zero_address}
use rif_relay.Common.Interactor.Receipts.{get_transaction_receipt}
use rif_relay.Common.Utils.{Address}

-- An event of a decoded log, with the value of its argument `reason`.
pub record Log : Type 0 where
  pub name : Text
  pub reason : Option Text

pub record RelayStatus : Type 0 where
  pub relay_reverted_on_recipient : Bool
  pub transaction_relayed : Bool
  pub reason : Text

-- The first parameter of a request: an object, with whether it says `to`, or something else.
pub data Param : Type 0 where
  an_object : (has_to : Bool) → TransactionDetails → Param
  a_plain : Text → Param

pub data RpcId : Type 0 where
  id_number : ℕ → RpcId
  id_text : Text → RpcId
  no_id : RpcId

pub record JsonRpcPayload : Type 0 where
  pub method : Text
  pub param : Option Param
  pub id : RpcId

-- `-1` where there is no id, `NaN` where a text is none.
pub data SentId : Type 0 where
  an_id : ℕ → SentId
  minus_one nan : SentId

-- What the callback of a sent transaction gets: a response, or an error.
pub data Answer : Type 0 where
  answers_with : SentId → (hash : Text) → Answer
  refused_with : Error → Answer

pub record ProviderConfig : Type 0 where
  pub forwarder_address : Address
  pub relay_hub_address : Address
  pub only_preferred_relays : Bool

pub record ProviderEnv : Type 0 where
  pub client : ClientEnv
  pub config : ProviderConfig
  pub decode_logs : List Text → List (Option Log)
  pub text_to_hex : Text → Text

-- `logs.find((e) => e != null && e.name === name)`.
unfoldable pub find_log : Text → List (Option Log) → Option Log
find_log name [] = none
find_log name (none ∷ logs) = find_log name logs
find_log name (some l ∷ logs) = if text_eq l.name name then some l else find_log name logs

abbrev pub status_of : (reverted on_chain_event : Bool) → (reason : Text) → RelayStatus
status_of reverted on_chain_event reason = record {
  relay_reverted_on_recipient = reverted;
  transaction_relayed = on_chain_event;
  reason = reason;
}

abbrev pub reverted_event : Text
reverted_event = codes "TransactionRelayedButRevertedByRecipient"

unfoldable pub decoded_status : List (Option Log) → RelayStatus
decoded_status logs = elim (find_log reverted_event logs) [
  | some l ↦ status_of true false (or_else l.reason (codes "Unknown"))
  | none ↦
      if is_some (find_log (codes "TransactionRelayed") logs)
      then status_of false true []
      else if is_some (find_log (codes "Deployed") logs)
      then status_of false true []
      else status_of false false (
          codes
            "Neither TransactionRelayed, Deployed, nor TransactionRelayedButRevertedByRecipient events found. This might be a non-enveloping transaction")
]

-- `_convertTransactionToRpcSendResponse` keeps a number, and reads a text.
unfoldable pub sent_id : RpcId → SentId
sent_id (id_number n) = an_id n
sent_id (id_text t) = elim (parse_int t) [ none ↦ nan | some n ↦ an_id n ]
sent_id no_id = minus_one

unfoldable pub uses_enveloping : JsonRpcPayload → Bool
uses_enveloping payload =
    if text_eq payload.method (codes "eth_accounts") then true else elim payload.param [
      | none ↦ false
      | some (a_plain t) ↦ true
      | some (an_object has_to details) ↦ or_else details.use_enveloping true
    ]

-- RSKJ refuses these fields.
unfoldable pub without_enveloping : TransactionDetails → TransactionDetails
without_enveloping details = record details {
  use_enveloping = none;
  call_verifier = none;
  force_gas_price = none;
  call_forwarder = none;
  is_smart_wallet_deploy = none;
  only_preferred_relays = none;
  token_amount = none;
  token_contract = none;
  force_gas = none;
}

unfoldable pub get_payload_for_rsk_provider : JsonRpcPayload → JsonRpcPayload
get_payload_for_rsk_provider payload = elim payload.param [
  | some (an_object has_to details) ↦ record payload {
    param = some (an_object has_to (without_enveloping details));
  }
  | some (a_plain t) ↦ payload
  | none ↦ payload
]

-- What `send` does with a request.
pub data Route : Type 0 where
  relays_it : TransactionDetails → Route
  gets_receipt : Route
  gets_accounts : Route
  passes_on : JsonRpcPayload → Route

unfoldable pub route_transaction : JsonRpcPayload → Result Route
route_transaction payload = elim payload.param [
  | some (an_object true details) ↦ ok (relays_it details)
  | some (an_object false details) ↦ err deploys_contract
  | some (a_plain t) ↦ err deploys_contract
  | none ↦ err no_data
]

-- The requests that the provider answers itself; all others go to the original provider.
unfoldable pub send_payload : JsonRpcPayload → Result Route
send_payload payload =
    let on = passes_on (get_payload_for_rsk_provider payload) in
    if not (uses_enveloping payload)
    then ok on
    else if text_eq payload.method (codes "eth_sendTransaction")
    then route_transaction payload
    else if text_eq payload.method (codes "eth_getTransactionReceipt")
    then ok gets_receipt
    else if text_eq payload.method (codes "eth_accounts")
    then ok gets_accounts
    else ok on

-- `_getAccounts`: the accounts of the client follow those of the original provider's answer.
unfoldable pub get_all_accounts : Option (List Address) → AccountState → Option (List Address)
get_all_accounts none s = none
get_all_accounts (some accounts) s = some (accounts ++ map (λ k. k.address) s.accounts)

-- Undefined, null and the zero address are replaced.
abbrev pub given_or : Option Address → Address → Option Address
given_or none d = some d
given_or (some a) d = if is_zero_address a then some d else some a

module _ (env : ProviderEnv) where
  unfoldable pub get_relay_status : TransactionReceipt → RelayStatus
  get_relay_status receipt = elim receipt.logs [
    | none ↦ status_of false false (codes "Tx logs not found")
    | some [] ↦ status_of false false (codes "Tx logs not found")
    | some (l ∷ ls) ↦ decoded_status (env.decode_logs (l ∷ ls))
  ]

  unfoldable pub provider_details : TransactionDetails → TransactionDetails
  provider_details details = record details {
    call_forwarder = given_or details.call_forwarder env.config.forwarder_address;
    relay_hub = given_or details.relay_hub env.config.relay_hub_address;
    only_preferred_relays =
        some (or_else details.only_preferred_relays env.config.only_preferred_relays);
    gas = elim details.force_gas [ none ↦ none | some gas ↦ some (env.text_to_hex gas) ];
  }

  -- A transaction that was relayed is answers_with when its receipt is there.
  unfoldable pub answer_receipt : JsonRpcPayload → (raw : Text) → Result TransactionReceipt → Answer
  answer_receipt payload raw (err e) = refused_with (rejected e)
  answer_receipt payload raw (ok receipt) =
      let status = get_relay_status receipt in
      let sent = answers_with (sent_id payload.id) (env.client.hash_of raw) in
      if status.transaction_relayed
      then sent
      else if status.relay_reverted_on_recipient
      then refused_with destination_reverted
      else sent

  unfoldable pub wait_and_answer :
      JsonRpcPayload → TransactionDetails → (raw : Text) → Exec Session Answer
  wait_and_answer payload details raw s =
      let (receipt, s') =
        on_chain
          (get_transaction_receipt env.client.chain (env.client.hash_of raw)
            (or_else details.retries wait_for_receipt_retries)
            (or_else details.initial_backoff wait_for_receipt_initial_backoff))
          s in
      (ok (answer_receipt payload raw receipt), s')

  unfoldable pub answer_result :
      JsonRpcPayload → TransactionDetails → Result RelayingResult → Exec Session Answer
  answer_result payload details (err e) s = (ok (refused_with (rejected e)), s)
  answer_result payload details (ok r) s = elim r.transaction [
    | none ↦ (ok (refused_with no_relayers), s)
    | some raw ↦ wait_and_answer payload details raw s
  ]

  unfoldable pub eth_send_transaction :
      (fuel rounds : ℕ) → JsonRpcPayload → TransactionDetails → Exec Session Answer
  unfolding provider_details
  eth_send_transaction fuel rounds payload details s =
      let (r, s') = relay_transaction env.client fuel rounds (provider_details details) s in
      answer_result payload (provider_details details) r s'
