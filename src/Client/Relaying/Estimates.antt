-- ===== src/Client/Relaying/Estimates.antt =====
-- src/relayclient/RelayClient.ts: estimates of gas that a user may ask for before relaying.
use rif_relay.Base.{
  Bool, codes, false, if◌then◌else◌, ltb, none, not, or_else, some, true, ℕ, ◌&&◌, ◌*◌, ◌+◌,
}
use rif_relay.Base.Exec.{
  Exec, Result, err, lift, no_hub, no_wallet, not_deploy, ok, pure, require, ◌>>=◌, ◌>>◌,
}
use rif_relay.Client.Accounts.{sign}
use rif_relay.Client.Relaying.{
  ClientEnv, Session, TransactionDetails, call_price, is_deploy, on_accounts, on_chain, price_for,
  resolve_forwarder,
}
use rif_relay.Client.Relaying.Prepare.{prepare_relay_http_request, relay_data_for}
use rif_relay.Common.Constants.{estimated_gas_correction_factor, zero_address}
use rif_relay.Common.Gas.{
  calculate_deploy_transaction_max_possible_gas, estimate_max_possible_relay_call_with_linear_fit,
  internal_call_cost,
}
use rif_relay.Common.Hex.{big_int}
use rif_relay.Common.Interactor.{ask, get_factory_nonce, is_zero_address}
use rif_relay.Common.Interactor.Validation.{
  estimate_destination_contract_call_gas,
  estimate_relay_transaction_max_possible_gas_with_transaction_request,
  wallet_factory_estimate_gas_of_deploy_call,
}
use rif_relay.Common.Requests.{DeployRequest, DeployTransactionRequest, for_deploy}
use rif_relay.Common.Utils.{Address}

module _ (env : ClientEnv) where
  -- The holder of the tokens: the wallet that is to be deployed, or the smart wallet.
  unfoldable pub token_origin : TransactionDetails → Result Address
  token_origin details =
      if is_deploy details
      then (let wallet = or_else details.smart_wallet_address zero_address in
          if is_zero_address wallet then err no_wallet else ok wallet)
      else resolve_forwarder details

  unfoldable pub pays_tokens : TransactionDetails → Bool
  pays_tokens details =
      not (is_zero_address (or_else details.token_contract zero_address))
      && ltb 0 (or_else details.token_amount 0)

  unfoldable pub transfer_cost : TransactionDetails → (worker origin : Address) → Exec Session ℕ
  transfer_cost details worker origin =
      if is_zero_address origin
      then pure 0
      else on_chain (
          ask (
            env.chain.estimate_gas (record {
              from = origin;
              to = or_else details.token_contract zero_address;
              gas_price = call_price details.gas_price;
              payload = env.chain.encode_transfer worker (or_else details.token_amount 0);
            })))

  unfoldable pub token_gas_cost : TransactionDetails → (worker : Address) → Exec Session ℕ
  token_gas_cost details worker =
      if pays_tokens details
      then (do origin ← lift (token_origin details); transfer_cost details worker origin)
      else pure 0

  unfoldable pub estimate_token_transfer_gas :
      TransactionDetails → (worker : Address) → Exec Session ℕ
  unfolding token_origin pays_tokens transfer_cost token_gas_cost
  estimate_token_transfer_gas details worker = do
    cost ← token_gas_cost details worker
    pure (internal_call_cost cost * estimated_gas_correction_factor)

  unfoldable pub factory_request_of :
      TransactionDetails → (forwarder worker : Address) → (nonce price : ℕ) → DeployRequest
  factory_request_of details forwarder worker nonce price = record {
    request = record {
      relay_hub = or_else details.relay_hub env.config.relay_hub_address;
      from = details.from;
      to = details.to;
      token_contract = or_else details.token_contract zero_address;
      recoverer = or_else details.recoverer zero_address;
      value = or_else details.value 0;
      nonce = nonce;
      token_amount = 0;
      token_gas = 0;
      index = or_else details.index 0;
      payload = details.payload;
    };
    relay_data =
        relay_data_for env (or_else details.call_verifier zero_address) forwarder worker
          (some price);
  }

  unfoldable pub prepare_factory_gas_estimation_request :
      TransactionDetails → (worker : Address) → Exec Session DeployTransactionRequest
  unfolding factory_request_of
  prepare_factory_gas_estimation_request details worker = do
    require (is_deploy details) not_deploy
    forwarder ← lift (resolve_forwarder details)
    nonce ← on_chain (get_factory_nonce env.chain forwarder details.from)
    price ← lift (big_int (or_else details.gas_price (codes "0x00")))
    let request = factory_request_of details forwarder worker nonce price
    signature ← on_accounts (sign env.signing (for_deploy request))
    pure (record {
      relay_request = request;
      metadata = record {
        relay_hub_address = env.config.relay_hub_address;
        relay_max_nonce = 0;
        signature = signature;
      };
    })

  unfoldable pub calculate_deploy_call_gas : DeployTransactionRequest → Exec Session ℕ
  calculate_deploy_call_gas request =
      on_chain (wallet_factory_estimate_gas_of_deploy_call env.chain request)

  unfoldable pub calculate_smart_wallet_relay_gas :
      TransactionDetails → (worker : Address) → Exec Session ℕ
  calculate_smart_wallet_relay_gas details worker = do
    request ← prepare_relay_http_request env worker (record details { token_amount = some 0 })
    require (not (is_zero_address (or_else details.relay_hub zero_address))) no_hub
    on_chain
        (estimate_relay_transaction_max_possible_gas_with_transaction_request env.chain request)

  abbrev priced : TransactionDetails → Exec Session TransactionDetails
  priced details = do
    price ← price_for env details
    pure (record details { gas_price = some price })

  abbrev with_token_gas : TransactionDetails → (worker : Address) → Exec Session ℕ
  with_token_gas details worker = elim details.token_gas [
    | none ↦ estimate_token_transfer_gas details worker
    | some token_gas ↦ pure token_gas
  ]

  unfoldable pub deploy_max_gas :
      TransactionDetails → (worker : Address) → (token_gas : ℕ) → Exec Session ℕ
  deploy_max_gas details worker token_gas = do
    request ←
        prepare_factory_gas_estimation_request (record details { gas = some (codes "0x00") }) worker
    estimate ← calculate_deploy_call_gas request
    pure (calculate_deploy_transaction_max_possible_gas (estimate + token_gas) (some token_gas))

  -- The details themselves are given as the call to estimate, so its sender is the owner.
  unfoldable pub destination_gas : TransactionDetails → Exec Session ℕ
  destination_gas details = elim details.gas [
    | some text ↦ lift (big_int text)
    | none ↦ on_chain (
        estimate_destination_contract_call_gas env.chain
          (record {
            from = details.from;
            to = details.to;
            gas_price = call_price details.gas_price;
            payload = details.payload;
          })
          true)
  ]

  unfoldable pub estimate_max_possible_relay_gas_with_linear_fit :
      TransactionDetails → (worker : Address) → Exec Session ℕ
  estimate_max_possible_relay_gas_with_linear_fit details worker = do
    d ← priced details
    token_gas ← with_token_gas d worker
    if is_deploy d
        then deploy_max_gas (record d { token_gas = some token_gas }) worker token_gas
        else (do
          gas ← destination_gas d
          pure (estimate_max_possible_relay_call_with_linear_fit gas token_gas false))

  unfoldable pub estimate_max_possible_relay_gas :
      TransactionDetails → (worker : Address) → Exec Session ℕ
  estimate_max_possible_relay_gas details worker = do
    d ← priced details
    token_gas ← with_token_gas d worker
    let d' = record d { token_gas = some token_gas }
    if is_deploy d then deploy_max_gas d' worker token_gas else (do
      gas ← calculate_smart_wallet_relay_gas d' worker
      pure ((gas + token_gas) * estimated_gas_correction_factor))
