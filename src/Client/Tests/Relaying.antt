-- ===== src/Client/Tests/Relaying.antt =====
-- The theorems on relaying, with a chain that answers every request, a relay 1 that is down and a
-- relay 2 that sends the requested call.
use rif_relay.Base.{
  Text, [], arith, codes, false, max, none, refl, some, true, ℕ, ◌*◌, ◌+◌, ◌/◌, ◌^◌, ◌∷◌, ◌≡◌,
}
use rif_relay.Base.Exec.{ok}
use rif_relay.Client.Accounts.{sign, typed_data}
use rif_relay.Client.Accounts.Signs.{sign_of_sender}
use rif_relay.Client.Provider.{
  JsonRpcPayload, ProviderEnv, an_id, an_object, eth_send_transaction, id_number, provider_details,
}
use rif_relay.Client.Provider.Answers.{IsNotReverted, eth_send_transaction_answered}
use rif_relay.Client.Relaying.{Session, calculate_gas_price}
use rif_relay.Client.Relaying.Attempt.{attempt_relay}
use rif_relay.Client.Relaying.Attempt.Sound.{IsSound, attempt_relay-IsSound}
use rif_relay.Client.Relaying.Loop.{RelayingResult, relay_loop, relay_transaction}
use rif_relay.Client.Relaying.Loop.Ends.{relay_loop-fuel}
use rif_relay.Client.Relaying.Loop.Refines.{Refined, relay_loop-Tries}
use rif_relay.Client.Relaying.Prepare.{is_hex, relay_request_of}
use rif_relay.Client.Relaying.Prepare.Price.{calculate_gas_price_carried}
use rif_relay.Client.Selection.{relays_left}
use rif_relay.Client.Tests.{found, one_down, one_down-IsSettling}
use rif_relay.Client.Tests.Chain.{
  asked, bound_chain, no_accounts, the_chain, the_client, the_session, the_signing, two_left,
}
use rif_relay.Common.Hex.{hex_text}
use rif_relay.Common.Interactor.{TransactionReceipt}
use rif_relay.Common.Interactor.Receipts.{get_transaction_receipt, get_transaction_receipt_found}
use rif_relay.Common.Requests.{RelayRequest, for_relay}
use rif_relay.Common.Utils.{Address, is_same_address}

relay_loop-Tries_example :
    Refined two_left [] (relay_loop the_client one_down false false 3 3 asked [] two_left)
relay_loop-Tries_example =
    relay_loop-Tries the_client one_down one_down-IsSettling false false 3 3 asked [] two_left

relay_loop-fuel_example :
    relay_loop the_client one_down false false 3 3 asked [] two_left
    ≡ relay_loop the_client one_down false false 3 9 asked [] two_left
unfolding relays_left
relay_loop-fuel_example =
    relay_loop-fuel the_client one_down one_down-IsSettling false false 3 3 9 asked [] two_left
      (omega arith) (omega arith)

abbrev after_attempt : Session
after_attempt = (attempt_relay the_client found asked the_session).1

attempt_relay-IsSound_example : IsSound the_client [] asked (9 ∷ [])
unfolding attempt_relay is_same_address relay_request_of rif_relay.Base.Exec.catch
    rif_relay.Base.Exec.◌>>=◌ rif_relay.Base.Strings.starts_with rif_relay.Base.Strings.text_eq
    rif_relay.Base.Strings.to_lower rif_relay.Client.Accounts.get_eip712_signature
    rif_relay.Client.Accounts.keypair_of rif_relay.Client.Accounts.sign_and_recover
    rif_relay.Client.Accounts.sign_data rif_relay.Client.Accounts.sign_with_provider
    rif_relay.Client.Relaying.Attempt.check_response
    rif_relay.Client.Relaying.Attempt.encoded_call_of rif_relay.Client.Relaying.Attempt.post
    rif_relay.Client.Relaying.Attempt.prepare_and_check
    rif_relay.Client.Relaying.Attempt.prepare_relay_and_check
    rif_relay.Client.Relaying.Attempt.refusal rif_relay.Client.Relaying.Attempt.requested
    rif_relay.Client.Relaying.Attempt.send_request rif_relay.Client.Relaying.Prepare.calculated
    rif_relay.Client.Relaying.Prepare.prepare_relay_http_request
    rif_relay.Client.Relaying.Prepare.signed_metadata rif_relay.Client.Relaying.broadcast_raw_tx
    rif_relay.Client.Relaying.is_already_submitted rif_relay.Client.Relaying.resolve_forwarder
    rif_relay.Client.Relaying.signed_tx_of rif_relay.Client.Validator.check_nonce
    rif_relay.Client.Validator.validate_relay_response rif_relay.Common.Hex.parse_int_16
    rif_relay.Common.Interactor.Validation.after_verifier
    rif_relay.Common.Interactor.Validation.call_relay
    rif_relay.Common.Interactor.Validation.estimate_relay_transaction_max_possible_gas
    rif_relay.Common.Interactor.Validation.get_max_viewable_relay_gas_limit
    rif_relay.Common.Interactor.Validation.validate_accept_relay_call
    rif_relay.Common.Interactor.Validation.verify_relay rif_relay.Common.Interactor.get_sender_nonce
    sign
attempt_relay-IsSound_example =
    attempt_relay-IsSound the_client found asked (9 ∷ []) the_session after_attempt refl

calculate_gas_price_carried_example :
    (network : ℕ) × (the_chain.gas_price 0 ≡ ok network)
    × (is_hex (codes "0xb") ≡ true)
    × ((relay_request_of the_client asked
          (102 ∷ [])
          []
          5
          (codes "0xb")
          (codes "0xc350")).relay_data.gas_price
        ≡ some (max ((network * (50 + 100) + 50) / 100) 6))
unfolding rif_relay.Base.Exec.◌>>=◌ rif_relay.Client.Relaying.calculate_gas_price
    rif_relay.Common.Hex.hex_text
calculate_gas_price_carried_example =
    calculate_gas_price_carried the_client bound_chain
      (calculate_gas_price the_client bound_chain).1 (codes "0xb") (codes "0xc350") asked (102 ∷ [])
      [] 5 refl

abbrev prepared : RelayRequest
prepared = relay_request_of the_client asked (102 ∷ []) [] 5 (codes "0xb") (codes "0xc350")

sign_of_sender_example :
    (signer : Address) × (the_signing.recover_typed_signature
        (typed_data the_signing (for_relay prepared))
        (115 ∷ [])
      ≡ ok signer)
    × (is_same_address (97 ∷ []) signer ≡ true)
unfolding rif_relay.Base.Exec.catch rif_relay.Base.Exec.◌>>=◌ rif_relay.Base.Strings.text_eq
    rif_relay.Base.Strings.to_lower rif_relay.Client.Accounts.get_eip712_signature
    rif_relay.Client.Accounts.keypair_of rif_relay.Client.Accounts.sign
    rif_relay.Client.Accounts.sign_and_recover rif_relay.Client.Accounts.sign_data
    rif_relay.Client.Accounts.sign_with_provider rif_relay.Client.Relaying.Prepare.relay_request_of
    rif_relay.Common.Utils.is_same_address
sign_of_sender_example =
    sign_of_sender the_signing (for_relay prepared) no_accounts
      (sign the_signing (for_relay prepared) no_accounts).1 (115 ∷ []) refl

get_transaction_receipt_found_example :
    ((get_transaction_receipt the_chain [] 6 1000 bound_chain).0
      ≡ ok (record { logs = some ([] ∷ []) }))
    × ((get_transaction_receipt the_chain [] 6 1000 bound_chain).1.time ≡ 0 + 2 + 1)
    × ((get_transaction_receipt the_chain [] 6 1000 bound_chain).1.slept + 1000 ≡ 0 + 1000 * 2 ^ 2)
get_transaction_receipt_found_example =
    get_transaction_receipt_found the_chain [] 2 6 1000 bound_chain
      (record { logs = some ([] ∷ []) }) (omega arith) (λ i lt. ground arith) refl

abbrev the_provider : ProviderEnv
the_provider = record {
  client = the_client;
  config = record {
    forwarder_address = 102 ∷ [];
    relay_hub_address = 104 ∷ [];
    only_preferred_relays = false;
  };
  decode_logs = λ ls. some (record { name = codes "TransactionRelayed"; reason = none }) ∷ [];
  text_to_hex = λ t. t;
}

abbrev request_sent : JsonRpcPayload
request_sent = record {
  method = codes "eth_sendTransaction";
  param = some (an_object true asked);
  id = id_number 8;
}

eth_send_transaction_answered_example :
    (r : RelayingResult) × (raw : Text) × (receipt : TransactionReceipt) × (time : ℕ)
    × ((relay_transaction the_client 3 3 (provider_details the_provider asked) the_session).0
        ≡ ok r)
    × (r.transaction ≡ some raw)
    × (48 ∷ 9 ∷ [] ≡ 48 ∷ raw)
    × (the_chain.receipt (48 ∷ raw) time ≡ ok (some receipt))
    × IsNotReverted the_provider receipt
unfolding attempt_relay eth_send_transaction hex_text is_same_address relay_loop relay_request_of
    relay_transaction relays_left rif_relay.Base.Dict.put rif_relay.Base.Exec.catch
    rif_relay.Base.Exec.◌>>=◌ rif_relay.Base.Sort.sort rif_relay.Base.Strings.starts_with
    rif_relay.Base.Strings.text_eq rif_relay.Base.Strings.to_lower
    rif_relay.Client.Accounts.get_eip712_signature rif_relay.Client.Accounts.keypair_of
    rif_relay.Client.Accounts.sign_and_recover rif_relay.Client.Accounts.sign_data
    rif_relay.Client.Accounts.sign_with_provider rif_relay.Client.Known.active_relays
    rif_relay.Client.Known.apply_all rif_relay.Client.Known.apply_event
    rif_relay.Client.Known.fetch_parts rif_relay.Client.Known.fetch_recently_active_relay_managers
    rif_relay.Client.Known.get_past_events_for_hub
    rif_relay.Client.Known.get_relay_info_for_managers
    rif_relay.Client.Known.get_relays_sorted_for_transaction rif_relay.Client.Known.refresh
    rif_relay.Client.Known.refresh_failures rif_relay.Client.Known.sort_relays_internal
    rif_relay.Client.Known.split_from rif_relay.Client.Known.split_range
    rif_relay.Client.Provider.answer_receipt rif_relay.Client.Provider.answer_result
    rif_relay.Client.Provider.decoded_status rif_relay.Client.Provider.find_log
    rif_relay.Client.Provider.get_relay_status rif_relay.Client.Provider.sent_id
    rif_relay.Client.Provider.wait_and_answer rif_relay.Client.Relaying.Attempt.attempt_or_error
    rif_relay.Client.Relaying.Attempt.check_response
    rif_relay.Client.Relaying.Attempt.encoded_call_of rif_relay.Client.Relaying.Attempt.post
    rif_relay.Client.Relaying.Attempt.prepare_and_check
    rif_relay.Client.Relaying.Attempt.prepare_relay_and_check
    rif_relay.Client.Relaying.Attempt.refusal rif_relay.Client.Relaying.Attempt.requested
    rif_relay.Client.Relaying.Attempt.send_request rif_relay.Client.Relaying.Loop.finish_relaying
    rif_relay.Client.Relaying.Loop.gas_for rif_relay.Client.Relaying.Loop.needs_token_gas
    rif_relay.Client.Relaying.Loop.prepare_relaying rif_relay.Client.Relaying.Loop.settle_attempt
    rif_relay.Client.Relaying.Loop.token_gas_for rif_relay.Client.Relaying.Loop.try_relay
    rif_relay.Client.Relaying.Loop.use_relay rif_relay.Client.Relaying.Prepare.calculated
    rif_relay.Client.Relaying.Prepare.prepare_relay_http_request
    rif_relay.Client.Relaying.Prepare.signed_metadata rif_relay.Client.Relaying.broadcast_raw_tx
    rif_relay.Client.Relaying.calculate_gas_price rif_relay.Client.Relaying.client_init
    rif_relay.Client.Relaying.get_estimate_gas_params rif_relay.Client.Relaying.is_already_submitted
    rif_relay.Client.Relaying.price_for rif_relay.Client.Relaying.resolve_forwarder
    rif_relay.Client.Relaying.signed_tx_of rif_relay.Client.Selection.get_relay_address_ping
    rif_relay.Client.Selection.handle_race_results rif_relay.Client.Selection.init
    rif_relay.Client.Selection.next_relay_internal rif_relay.Client.Selection.next_slice
    rif_relay.Client.Selection.race_to_success rif_relay.Client.Selection.resolve_winner
    rif_relay.Client.Selection.select_any rif_relay.Client.Selection.select_next_relay
    rif_relay.Client.Validator.check_nonce rif_relay.Client.Validator.validate_relay_response
    rif_relay.Common.Hex.parse_int_16 rif_relay.Common.Interactor.Receipts.get_transaction_receipt
    rif_relay.Common.Interactor.Validation.after_verifier
    rif_relay.Common.Interactor.Validation.call_relay
    rif_relay.Common.Interactor.Validation.estimate_destination_contract_call_gas
    rif_relay.Common.Interactor.Validation.estimate_relay_transaction_max_possible_gas
    rif_relay.Common.Interactor.Validation.get_max_viewable_relay_gas_limit
    rif_relay.Common.Interactor.Validation.validate_accept_relay_call
    rif_relay.Common.Interactor.Validation.verify_relay rif_relay.Common.Interactor.get_sender_nonce
    sign
eth_send_transaction_answered_example =
    eth_send_transaction_answered the_provider 3 3 request_sent asked the_session
      (eth_send_transaction the_provider 3 3 request_sent asked the_session).1 (an_id 8)
      (48 ∷ 9 ∷ []) refl
