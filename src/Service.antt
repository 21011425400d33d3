-- ===== src/Service.antt =====
-- src/relayserver/RelayServer.ts: what the server answers to pings and to queries, and the answer to a
-- relay request of src/relayserver/HttpServer.ts. Express and the token contracts are parameters.
pub mod Agrees
pub mod Tests
use rif_relay.Base.{Bool, List, Option, Text, [], false, none, some, true, ℕ, ◌∷◌}
use rif_relay.Base.Dict.{Dict, put}
use rif_relay.Base.Exec.{
  Error, Exec, Result, err, gets, not_initialized, ok, pure, require, untrusted_verifier, ◌>>=◌,
  ◌>>◌,
}
use rif_relay.Client.Relaying.{RelayBody, is_deploy}
use rif_relay.Client.Selection.{PingResponse}
use rif_relay.Common.Requests.{RelayTransactionRequest}
use rif_relay.Common.Utils.{Address}
use rif_relay.Server.Relay.{Request, ServerEnv, ServerState, is_ready, is_trusted_verifier, query}
use rif_relay.Server.Relay.Requests.{create_relay_transaction}

-- What `tokenHandler` asks of a verifier's contract, and `toChecksumAddress`.
pub record TokenEnv : Type 0 where
  pub token_handler_at : Address → ℕ → Result (Unit {0})
  pub accepted_tokens : Address → ℕ → Result (List Address)
  pub checksum : Address → Address

-- What the server reads of a request for a relayed call.
unfoldable pub server_request : RelayTransactionRequest → Request
server_request r = record {
  is_deploy = false;
  relay_hub_address = r.metadata.relay_hub_address;
  relay_max_nonce = r.metadata.relay_max_nonce;
  relay_worker = r.relay_request.relay_data.relay_worker;
  call_verifier = r.relay_request.relay_data.call_verifier;
  gas_price = r.relay_request.relay_data.gas_price;
  gas = r.relay_request.request.gas;
}

-- The verifier that is asked about, or all that are trusted.
unfoldable pub verifiers_to_query : Option Address → Exec ServerState (List Address)
verifiers_to_query none = gets (λ s. s.trusted_verifiers)
verifiers_to_query (some v) = do
  trusted ← gets (is_trusted_verifier v)
  require trusted untrusted_verifier
  pure (v ∷ [])

module _ (tokens : TokenEnv) where
  unfoldable pub query_tokens :
      List Address → Dict (List Address) → Exec ServerState (Dict (List Address))
  query_tokens [] answer = pure answer
  query_tokens (v ∷ vs) answer = do
    _ ← query (tokens.token_handler_at v)
    accepted ← query (tokens.accepted_tokens v)
    query_tokens vs (put (tokens.checksum v) accepted answer)

  unfoldable pub token_handler : Option Address → Exec ServerState (Dict (List Address))
  token_handler verifier = do vs ← verifiers_to_query verifier; query_tokens vs []

unfoldable pub verifier_handler : ServerState → List Address
verifier_handler s = s.trusted_verifiers

module _ (env : ServerEnv) where
  -- The text of the chain's id cannot be made before `init` has set it.
  unfoldable pub ping_handler : (has_chain_id : Bool) → ServerState → Result PingResponse
  ping_handler false s = err not_initialized
  ping_handler true s = ok (record {
    relay_worker_address = env.registration.worker_address;
    relay_manager_address = env.registration.manager_address;
    relay_hub_address = env.hub_address;
    min_gas_price = s.gas_price;
    ready = is_ready env s;
  })

  -- `relayHandler` of the HTTP server: an error without a message is an empty answer.
  unfoldable pub relay_handler :
      (message_of : Error → Option Text) → Request → ServerState → RelayBody × ServerState
  relay_handler message_of req s =
      let (r, t) = create_relay_transaction env req s in
      (
        elim r [
          | ok sent ↦ record { signed_tx = some sent.signed_tx; error = none }
          | err e ↦ record { signed_tx = none; error = message_of e }
        ],
        t,
      )
