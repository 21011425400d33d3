-- ===== src/Service/Agrees.antt =====
-- src/relayserver/RelayServer.ts and src/relayclient/RelayClient.ts: where the server and the client
-- agree.
use rif_relay.Base.{
  List, Option, Text, ap, arith, false, ltb, none, refl, some, subst, text_eq, text_eq_refl,
  to_lower, true, ℕ, ◌∙◌, ◌≡◌,
}
use rif_relay.Base.Dict.{Dict}
use rif_relay.Base.Exec.{
  >>=-eq-ok, bad_gas_price, gets, ok, require_holds, untrusted_verifier, ◌>>=◌,
}
use rif_relay.Client.Relaying.{ClientEnv, Session, TransactionDetails, gas_price_ping_filter}
use rif_relay.Client.Relaying.Prepare.{
  calculated, is_hex, prepare_relay_http_request, relay_request_of, signed_metadata,
}
use rif_relay.Client.Selection.{PingResponse}
use rif_relay.Common.Hex.{parse_int, parse_int_16}
use rif_relay.Common.Requests.{AnyRequest, RelayMetadata, RelayTransactionRequest, for_relay}
use rif_relay.Common.Utils.{Address, is_same_address}
use rif_relay.Server.Relay.{ServerEnv, ServerState, is_trusted_verifier}
use rif_relay.Server.Relay.Requests.{validate_input}
use rif_relay.Service.{TokenEnv, ping_handler, server_request, token_handler, verifiers_to_query}

-- What a prepared request has from the details, the worker and the configuration.
abbrev IsOffered :
    ClientEnv → (worker : Address) → TransactionDetails → RelayTransactionRequest → Type 0
IsOffered client worker details r =
    (r.metadata.relay_hub_address ≡ client.config.relay_hub_address)
    × (r.relay_request.relay_data.relay_worker ≡ worker)
    × ((text : Text) × (details.gas_price ≡ some text)
        × (is_hex text ≡ true)
        × (r.relay_request.relay_data.gas_price ≡ parse_int_16 text))

calculated-eq-ok : (o : Option Text) (text : Text) → calculated o ≡ ok text → o ≡ some text
unfolding calculated
calculated-eq-ok none text h = absurd (ground arith)
calculated-eq-ok (some t) text h = ground arith

signed_metadata_hub :
    (client : ClientEnv) (request : AnyRequest) (worker : Address) (s s' : Session)
    (metadata : RelayMetadata)
    → signed_metadata client request worker s ≡ (ok metadata, s')
    → metadata.relay_hub_address ≡ client.config.relay_hub_address
unfolding signed_metadata
signed_metadata_hub client request worker s s' metadata h =
    let (u, e1, h1) = >>=-eq-ok _ _ s h in
    let (signature, e2, h2) = >>=-eq-ok _ _ _ h1 in
    let (count, e3, h3) = >>=-eq-ok _ _ _ h2 in ground (arith, h3)

prepare_relay_http_request-IsOffered :
    (client : ClientEnv) (worker : Address) (details : TransactionDetails) (s s' : Session)
    (r : RelayTransactionRequest)
    → prepare_relay_http_request client worker details s ≡ (ok r, s')
    → IsOffered client worker details r
unfolding prepare_relay_http_request relay_request_of calculated
prepare_relay_http_request-IsOffered client worker details s s' r h =
    let (forwarder, e1, h1) = >>=-eq-ok _ _ s h in
    let (nonce, e2, h2) = >>=-eq-ok _ _ _ h1 in
    let (price, e3, h3) = >>=-eq-ok _ _ _ h2 in
    let (gas, e4, h4) = >>=-eq-ok _ _ _ h3 in
    let (u, e5, h5) = >>=-eq-ok _ _ _ h4 in
    let (v, e6, h6) = >>=-eq-ok _ _ _ h5 in
    let (metadata, e7, h7) = >>=-eq-ok _ _ _ h6 in
    let request = relay_request_of client details forwarder worker nonce price gas in
    let built : RelayTransactionRequest = record { relay_request = request; metadata = metadata } in
    let its : built ≡ r = ground (arith, h7) in
    subst (IsOffered client worker details) its (
      signed_metadata_hub client (for_relay request) worker _ _ metadata e7,
      refl,
      (
        price,
        calculated-eq-ok details.gas_price price (λ i. (e3 i).0),
        require_holds (is_hex price) bad_gas_price _ e5,
        refl,
      ),
    )

-- A request for a relayed call that a client prepares for the worker of a server that answered its
-- ping passes the server's checks of hub, worker and price as long as the server's price has not
-- changed, if the price was a number that passed the client's ping filter and both have the same hub.
pub validate_input-ping_handler :
    (server : ServerEnv) (client : ClientEnv) (s : ServerState) (ping : PingResponse)
    (details : TransactionDetails) (text : Text) (price : ℕ) (session session' : Session)
    (r : RelayTransactionRequest)
    → ping_handler server true s ≡ ok ping
    → details.gas_price ≡ some text
    → parse_int_16 text ≡ some price
    → gas_price_ping_filter details ping ≡ ok tt
    → prepare_relay_http_request client ping.relay_worker_address details session ≡ (ok r, session')
    → is_same_address client.config.relay_hub_address server.hub_address ≡ true
    → validate_input server (server_request r) s ≡ (ok tt, s)
unfolding ping_handler gas_price_ping_filter validate_input server_request is_same_address ◌>>=◌
    parse_int
validate_input-ping_handler server client s ping details text price session session' r pinged given
      number passed prepared same_hub =
    let (hub, worker, (text', given', hex, carried)) =
      prepare_relay_http_request-IsOffered client ping.relay_worker_address details session session'
        r prepared in
    let same : text' ≡ text = ground (arith, given, given') in
    let read : parse_int text ≡ some price =
      ground (arith, subst (λ t. is_hex t ≡ true) same hex, number) in
    let priced : r.relay_request.relay_data.gas_price ≡ some price =
      carried ∙ ap parse_int_16 same ∙ number in
    let worker' : r.relay_request.relay_data.relay_worker ≡ server.registration.worker_address =
      ground (arith, worker, pinged) in
    let least : ping.min_gas_price ≡ s.gas_price = ground (arith, pinged) in
    let enough : ltb price s.gas_price ≡ false = ground (arith, passed, given, read, least) in
    let right_hub : text_eq (to_lower r.metadata.relay_hub_address) (to_lower server.hub_address)
        ≡ true =
      rw hub same_hub in
    let right_worker : text_eq (to_lower r.relay_request.relay_data.relay_worker)
          (to_lower server.registration.worker_address)
        ≡ true =
      rw worker' (text_eq_refl _) in
    ground (arith, right_hub, right_worker, priced, enough)

-- Tokens are answered only for a verifier that is trusted.
token_handler-trusted :
    (tokens : TokenEnv) (v : Address) (s s' : ServerState) (answer : Dict (List Address))
    → token_handler tokens (some v) s ≡ (ok answer, s')
    → is_trusted_verifier v s ≡ true
unfolding token_handler verifiers_to_query
token_handler-trusted tokens v s s' answer h =
    let (vs, e1, h1) = >>=-eq-ok (verifiers_to_query (some v)) _ s h in
    let (trusted, e2, h2) = >>=-eq-ok (gets (is_trusted_verifier v)) _ s e1 in
    let (u, e3, h3) = >>=-eq-ok _ _ _ h2 in
    ground (arith, e2, require_holds trusted untrusted_verifier _ e3)
