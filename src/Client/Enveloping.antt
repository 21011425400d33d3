-- ===== src/Client/Enveloping.antt =====
-- src/relayclient/Enveloping.ts: requests made by hand. The signature provider is the integrator's,
-- and the HTTP client's answers are a parameter.
use rif_relay.Base.{
  Bool, Option, Text, codes, if◌then◌else◌, none, not, or_else, some, true, ℕ, ◌+◌,
}
use rif_relay.Base.Exec.{
  Exec, Result, already_initialized, err, not_initialized, ok, pure, require, wrong_signature,
  ◌>>=◌, ◌>>◌,
}
use rif_relay.Client.Accounts.{TypedData}
use rif_relay.Client.Relaying.{RelayBody, signed_tx_of}
use rif_relay.Client.Relaying.Attempt.{RelayingAttempt, failed, relayed}
use rif_relay.Client.Validator.{ReturnedTx}
use rif_relay.Common.Constants.{zero_address}
use rif_relay.Common.Interactor.{
  ChainEnv, ChainState, as_number, ask, get_factory_nonce, get_sender_nonce, init,
}
use rif_relay.Common.Interactor.Validation.{estimate_destination_contract_call_gas}
use rif_relay.Common.Requests.{
  AnyRequest, AnyTransactionRequest, DeployRequest, DeployTransactionRequest, RelayData,
  RelayMetadata, RelayRequest, RelayTransactionRequest, for_deploy, for_relay,
}
use rif_relay.Common.Utils.{Address}

pub record EnvelopingConfig : Type 0 where
  pub relay_hub_address : Address
  pub relay_verifier_address : Address
  pub deploy_verifier_address : Address
  pub smart_wallet_factory_address : Address
  pub chain_id : ℕ
  pub max_relay_nonce_gap : ℕ

-- `SignatureProvider`.
pub record SignatureProvider : Type 0 where
  pub sign_typed : TypedData → Text
  pub verify_sign : (signature : Text) → TypedData → AnyRequest → Bool

pub record EnvelopingEnv : Type 0 where
  pub config : EnvelopingConfig
  pub chain : ChainEnv
  pub relay_worker_address : Address
  pub domain_separator_hash : Address → ℕ → Text
  pub relay_answer : (url : Text) → AnyTransactionRequest → ℕ → Result RelayBody
  pub decode_transaction : Text → Result ReturnedTx

-- `gasPrice ?? await web3.eth.getGasPrice()`.
abbrev price_or_ask : ChainEnv → Option ℕ → Exec ChainState ℕ
price_or_ask chain none = ask chain.gas_price
price_or_ask chain (some price) = pure price

module _ (env : EnvelopingEnv) where
  -- A second initialization throws.
  unfoldable pub enveloping_init : (initialized : Bool) → Exec ChainState Bool
  enveloping_init initialized = do
    require (not initialized) already_initialized
    init env.chain
    pure true

  unfoldable pub data_for : (verifier forwarder : Address) → (price : ℕ) → RelayData
  data_for verifier forwarder price = record {
    gas_price = some price;
    domain_separator = env.domain_separator_hash forwarder env.config.chain_id;
    relay_worker = env.relay_worker_address;
    call_forwarder = forwarder;
    call_verifier = verifier;
  }

  unfoldable pub create_deploy_request :
      (from token_contract : Address)
      → (token_amount token_gas : ℕ) → (gas_price index : Option ℕ) → (recoverer : Option Address)
      → Exec ChainState DeployRequest
  unfolding data_for
  create_deploy_request from token_contract token_amount token_gas gas_price index recoverer = do
    nonce ← get_factory_nonce env.chain env.config.smart_wallet_factory_address from
    price ← price_or_ask env.chain gas_price
    pure (record {
      request = record {
        relay_hub = env.config.relay_hub_address;
        from = from;
        to = zero_address;
        token_contract = token_contract;
        recoverer = or_else recoverer zero_address;
        value = 0;
        nonce = nonce;
        token_amount = token_amount;
        token_gas = token_gas;
        index = or_else index 0;
        payload = codes "0x";
      };
      relay_data =
          data_for env.config.deploy_verifier_address env.config.smart_wallet_factory_address price;
    })

  unfoldable pub estimate_destination_contract_internal_call_gas :
      (forwarder to : Address)
      → (payload : Text) → (gas_price : Option ℕ) → (add_cushion : Bool) → Exec ChainState ℕ
  estimate_destination_contract_internal_call_gas forwarder to payload gas_price add_cushion = do
    price ← price_or_ask env.chain gas_price
    estimate_destination_contract_call_gas env.chain
        (record {
          from = forwarder;
          to = to;
          gas_price = as_number (some price);
          payload = payload;
        })
        add_cushion

  abbrev gas_or_estimate :
      Option ℕ → (forwarder to : Address) → (payload : Text) → (price : ℕ) → Exec ChainState ℕ
  gas_or_estimate (some gas) forwarder to payload price = pure gas
  gas_or_estimate none forwarder to payload price =
      estimate_destination_contract_internal_call_gas forwarder to payload (some price) true

  unfoldable pub create_relay_request :
      (from to forwarder : Address)
      → (payload : Text) → (token_contract : Address) → (token_amount token_gas : ℕ)
      → (gas_limit gas_price : Option ℕ) → Exec ChainState RelayRequest
  unfolding data_for
  create_relay_request from to forwarder payload token_contract token_amount token_gas limit given =
      do
        price ← price_or_ask env.chain given
        gas ← gas_or_estimate limit forwarder to payload price
        nonce ← get_sender_nonce env.chain forwarder
        pure (record {
          request = record {
            relay_hub = env.config.relay_hub_address;
            from = from;
            to = to;
            token_contract = token_contract;
            value = 0;
            gas = some gas;
            nonce = nonce;
            token_amount = token_amount;
            token_gas = token_gas;
            payload = payload;
          };
          relay_data = data_for env.config.relay_verifier_address forwarder price;
        })

  unfoldable pub sign_and_verify : SignatureProvider → TypedData → AnyRequest → Result Text
  sign_and_verify provider signed request =
      let signature = provider.sign_typed signed in
      if not (provider.verify_sign signature signed request)
      then err wrong_signature
      else ok signature

  -- A deployment is signed for the configured factory.
  unfoldable pub sign_deploy_request : SignatureProvider → DeployRequest → Result Text
  unfolding sign_and_verify
  sign_deploy_request provider request =
      sign_and_verify provider
        (record {
          chain_id = env.config.chain_id;
          verifier = env.config.smart_wallet_factory_address;
          request = for_deploy request;
        })
        (for_deploy request)

  unfoldable pub sign_relay_request : SignatureProvider → RelayRequest → Result Text
  unfolding sign_and_verify
  sign_relay_request provider request =
      sign_and_verify provider
        (record {
          chain_id = env.config.chain_id;
          verifier = request.relay_data.call_forwarder;
          request = for_relay request;
        })
        (for_relay request)

  unfoldable pub generate_metadata : (signature : Text) → Exec ChainState RelayMetadata
  generate_metadata signature = do
    count ← ask (env.chain.transaction_count env.relay_worker_address)
    pure (record {
      relay_hub_address = env.config.relay_hub_address;
      relay_max_nonce = count + env.config.max_relay_nonce_gap;
      signature = signature;
    })

  unfoldable pub generate_deploy_transaction_request :
      (signature : Text) → DeployRequest → Exec ChainState DeployTransactionRequest
  generate_deploy_transaction_request signature request = do
    metadata ← generate_metadata signature
    pure (record { relay_request = request; metadata = metadata })

  unfoldable pub generate_relay_transaction_request :
      (signature : Text) → RelayRequest → Exec ChainState RelayTransactionRequest
  generate_relay_transaction_request signature request = do
    metadata ← generate_metadata signature
    pure (record { relay_request = request; metadata = metadata })

  -- `sendTransaction`: a relay's answer is decoded but not validated, and no error is thrown.
  unfoldable pub send_enveloping :
      (url : Text) → AnyTransactionRequest → ℕ → (initialized : Bool) → RelayingAttempt
  send_enveloping url request time initialized = elim (env.relay_answer url request time) [
    | err e ↦ failed e
    | ok body ↦ elim (signed_tx_of body) [
      | err e ↦ failed e
      | ok raw ↦
          if not initialized
          then failed not_initialized
          else (elim (env.decode_transaction raw) [ err e ↦ failed e | ok tx ↦ relayed raw ])
    ]
  ]
