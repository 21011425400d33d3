-- ===== src/Client/Relaying/Prepare.antt =====
-- src/relayclient/RelayClient.ts: the requests that are signed and sent to a relay.
pub mod Price
use rif_relay.Base.{Bool, Option, Text, codes, none, or_else, some, starts_with, ℕ, ◌+◌}
use rif_relay.Base.Exec.{
  Exec, Result, bad_gas, bad_gas_price, err, lift, no_gas_price, ok, pure, require, ◌>>=◌, ◌>>◌,
}
use rif_relay.Client.Accounts.{sign}
use rif_relay.Client.Relaying.{
  ClientEnv, Session, TransactionDetails, emit, on_accounts, on_chain, resolve_forwarder,
  sign_request,
}
use rif_relay.Common.Constants.{zero_address}
use rif_relay.Common.Hex.{parse_int_16}
use rif_relay.Common.Interactor.{ask, get_factory_nonce, get_sender_nonce}
use rif_relay.Common.Requests.{
  AnyRequest, DeployRequest, DeployTransactionRequest, RelayData, RelayMetadata, RelayRequest,
  RelayTransactionRequest, for_deploy, for_relay,
}
use rif_relay.Common.Utils.{Address}

abbrev pub is_hex : Text → Bool
is_hex text = starts_with (codes "0x") text

-- The price and the gas limit have to be calculated before.
unfoldable pub calculated : Option Text → Result Text
calculated none = err no_gas_price
calculated (some text) = ok text

module _ (env : ClientEnv) where
  abbrev pub relay_data_for : (verifier forwarder worker : Address) → (price : Option ℕ) → RelayData
  relay_data_for verifier forwarder worker price = record {
    gas_price = price;
    domain_separator = env.domain_separator_hash forwarder env.chain_id;
    relay_worker = worker;
    call_forwarder = forwarder;
    call_verifier = verifier;
  }

  unfoldable pub relay_request_of :
      TransactionDetails
      → (forwarder worker : Address) → (nonce : ℕ) → (price gas : Text) → RelayRequest
  relay_request_of details forwarder worker nonce price gas = record {
    request = record {
      relay_hub = or_else details.relay_hub zero_address;
      from = details.from;
      to = details.to;
      token_contract = or_else details.token_contract zero_address;
      value = or_else details.value 0;
      gas = parse_int_16 gas;
      nonce = nonce;
      token_amount = or_else details.token_amount 0;
      token_gas = or_else details.token_gas 0;
      payload = details.payload;
    };
    relay_data =
        relay_data_for (or_else details.call_verifier env.config.relay_verifier_address) forwarder
          worker (parse_int_16 price);
  }

  unfoldable pub deploy_request_of :
      TransactionDetails
      → (forwarder worker : Address) → (nonce : ℕ) → (price : Text) → DeployRequest
  deploy_request_of details forwarder worker nonce price = record {
    request = record {
      relay_hub = or_else details.relay_hub zero_address;
      from = details.from;
      to = details.to;
      token_contract = or_else details.token_contract zero_address;
      recoverer = or_else details.recoverer zero_address;
      value = or_else details.value 0;
      nonce = nonce;
      token_amount = or_else details.token_amount 0;
      token_gas = or_else details.token_gas 0;
      index = or_else details.index 0;
      payload = details.payload;
    };
    relay_data =
        relay_data_for (or_else details.call_verifier env.config.deploy_verifier_address) forwarder
          worker (parse_int_16 price);
  }

  -- The signature, and the nonce that the relay may use at most.
  unfoldable pub signed_metadata : AnyRequest → (worker : Address) → Exec Session RelayMetadata
  signed_metadata request worker = do
    emit sign_request
    signature ← on_accounts (sign env.signing request)
    count ← on_chain (ask (env.chain.transaction_count worker))
    pure (record {
      relay_hub_address = env.config.relay_hub_address;
      relay_max_nonce = count + env.config.max_relay_nonce_gap;
      signature = signature;
    })

  unfoldable pub prepare_deploy_http_request :
      (worker : Address) → TransactionDetails → Exec Session DeployTransactionRequest
  prepare_deploy_http_request worker details = do
    forwarder ← lift (resolve_forwarder details)
    nonce ← on_chain (get_factory_nonce env.chain forwarder details.from)
    price ← lift (calculated details.gas_price)
    require (is_hex price) bad_gas_price
    let request = deploy_request_of details forwarder worker nonce price
    metadata ← signed_metadata (for_deploy request) worker
    pure (record { relay_request = request; metadata = metadata })

  unfoldable pub prepare_relay_http_request :
      (worker : Address) → TransactionDetails → Exec Session RelayTransactionRequest
  prepare_relay_http_request worker details = do
    forwarder ← lift (resolve_forwarder details)
    nonce ← on_chain (get_sender_nonce env.chain forwarder)
    price ← lift (calculated details.gas_price)
    gas ← lift (calculated details.gas)
    require (is_hex price) bad_gas_price
    require (is_hex gas) bad_gas
    let request = relay_request_of details forwarder worker nonce price gas
    metadata ← signed_metadata (for_relay request) worker
    pure (record { relay_request = request; metadata = metadata })
