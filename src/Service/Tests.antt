-- ===== src/Service/Tests.antt =====
-- The theorems on a client and a server, with the small server and a client that pays 11.
use rif_relay.Base.{[], codes, refl, ◌∷◌, ◌≡◌}
use rif_relay.Base.Exec.{ok}
use rif_relay.Client.Relaying.Prepare.{prepare_relay_http_request, relay_request_of}
use rif_relay.Client.Selection.{PingResponse}
use rif_relay.Client.Tests.Chain.{asked, the_client, the_session}
use rif_relay.Common.Requests.{RelayTransactionRequest}
use rif_relay.Server.Relay.{is_ready}
use rif_relay.Server.Relay.Requests.{validate_input}
use rif_relay.Server.Tests.{hub, manager, worker}
use rif_relay.Server.Tests.Serving.{serving, small_server}
use rif_relay.Service.{server_request}
use rif_relay.Service.Agrees.{validate_input-ping_handler}

abbrev offered_ping : PingResponse
offered_ping = record {
  relay_worker_address = worker;
  relay_manager_address = manager;
  relay_hub_address = hub;
  min_gas_price = 2;
  ready = is_ready small_server serving;
}

abbrev offered : RelayTransactionRequest
offered = record {
  relay_request =
      relay_request_of the_client asked (102 ∷ []) worker 5 (codes "0xb") (codes "0xc350");
  metadata = record { relay_hub_address = hub; relay_max_nonce = 6; signature = 115 ∷ [] };
}

validate_input-ping_handler_example :
    validate_input small_server (server_request offered) serving ≡ (ok tt, serving)
unfolding prepare_relay_http_request rif_relay.Base.Exec.catch rif_relay.Base.Exec.◌>>=◌
    rif_relay.Base.Strings.starts_with rif_relay.Base.Strings.text_eq
    rif_relay.Base.Strings.to_lower rif_relay.Client.Accounts.get_eip712_signature
    rif_relay.Client.Accounts.keypair_of rif_relay.Client.Accounts.sign
    rif_relay.Client.Accounts.sign_and_recover rif_relay.Client.Accounts.sign_data
    rif_relay.Client.Accounts.sign_with_provider rif_relay.Client.Relaying.Prepare.calculated
    rif_relay.Client.Relaying.Prepare.relay_request_of
    rif_relay.Client.Relaying.Prepare.signed_metadata
    rif_relay.Client.Relaying.gas_price_ping_filter rif_relay.Client.Relaying.resolve_forwarder
    rif_relay.Common.Hex.parse_int rif_relay.Common.Hex.parse_int_16
    rif_relay.Common.Interactor.get_sender_nonce rif_relay.Common.Utils.is_same_address
    rif_relay.Service.ping_handler
validate_input-ping_handler_example =
    validate_input-ping_handler small_server the_client serving offered_ping asked (codes "0xb") 11
      the_session (prepare_relay_http_request the_client worker asked the_session).1 offered refl
      refl refl refl refl refl
