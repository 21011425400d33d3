-- ===== src/Server/Tests/Serving.antt =====
-- The theorems on requests and on the worker, on the small server.
use rif_relay.Base.{
  [], any, arith, codes, false, none, not, refl, some, text_eq, true, ◌&&◌, ◌||◌, ◌∷◌, ◌≡◌,
}
use rif_relay.Base.Exec.{no_gas_price, ok}
use rif_relay.Common.Constants.{zero_address}
use rif_relay.Common.Utils.{is_same_address}
use rif_relay.Server.Relay.{
  Request, ServerConfig, ServerEnv, ServerState, init_trusted_verifiers, is_ready,
  is_trusted_verifier,
}
use rif_relay.Server.Relay.Requests.{validate}
use rif_relay.Server.Relay.Requests.Safety.{IsAcceptable, validate-IsAcceptable}
use rif_relay.Server.Relay.Worker.{interval_handler, worker_semaphore}
use rif_relay.Server.Relay.Worker.Ready.{interval_handler-failed, is_trusted_verifier-init}
use rif_relay.Server.Stored.{relay_call}
use rif_relay.Server.Tests.{hub, started, worker}
use rif_relay.Server.Tests.Keeping.{registered_state, small_registration_env}
use rif_relay.Server.Transactions.{SendDetails}

abbrev pub small_config : ServerConfig
small_config = record {
  trusted_verifiers = (86 ∷ []) ∷ [];
  relay_verifier_address = 87 ∷ [];
  deploy_verifier_address = zero_address;
  worker_min_balance = 100;
  worker_target_balance = 200;
  manager_min_balance = 100;
  manager_target_balance = 300;
  custom_replenish = true;
  registration_block_rate = 0;
  refresh_state_timeout_blocks = 5;
  successful_rounds_for_ready = 3;
  alerted_block_delay = 10;
  with_factor = λ p. p;
}

abbrev pub small_server : ServerEnv
small_server = record {
  registration = small_registration_env;
  config = small_config;
  hub_address = hub;
  has_shape = λ r. true;
  encode = λ r. codes "0x01";
  code_length = λ t. ok 20;
  create_verifier = λ r t. ok tt;
  estimate_destination = λ r t. ok 50;
  estimate_deploy = λ r t. ok 50;
  estimate_relay = λ r t. ok 90;
  verify = λ r t. ok tt;
  view_call = λ r gas t. ok tt;
  nan_price = 0;
}

abbrev pub serving : ServerState
serving = record {
  registration = record registered_state { tx = started };
  last_scanned_block = 4;
  last_refresh_block = 4;
  ready = true;
  last_successful_rounds = 3;
  gas_price = 2;
  worker_semaphore_on = false;
  alerted = false;
  alerted_block = 0;
  initialized = true;
  last_mined_active_transaction = none;
  trusted_verifiers = (118 ∷ []) ∷ [];
  worker_balance_required = record { current_value = 0; required_value = 100 };
  funding_needed = 0;
}

abbrev pub small_request : Request
small_request = record {
  is_deploy = false;
  relay_hub_address = hub;
  relay_max_nonce = 4;
  relay_worker = worker;
  call_verifier = 86 ∷ [];
  gas_price = some 3;
  gas = some 50;
}

abbrev small_details : SendDetails
small_details = record {
  signer = worker;
  action = relay_call;
  encoded_call = some (codes "0x01");
  destination = hub;
  value = none;
  gas_limit = 90;
  gas_price = some 3;
  creation_block = 9;
}

validate-IsAcceptable_example :
    IsAcceptable small_server small_request serving
    × (small_details.signer ≡ worker)
    × (small_details.gas_price ≡ some 3)
    × (small_details.encoded_call ≡ some (codes "0x01"))
unfolding validate rif_relay.Base.Exec.◌>>=◌ is_ready rif_relay.Server.Relay.Requests.validate_input
    rif_relay.Base.Strings.text_eq rif_relay.Base.Strings.to_lower
    rif_relay.Server.Relay.Requests.validate_max_nonce rif_relay.Server.Transactions.poll_nonce
    rif_relay.Base.Dict.get rif_relay.Server.Transactions.raise_nonce rif_relay.Base.Dict.put
    rif_relay.Server.Relay.Requests.validate_request_with_verifier is_trusted_verifier
    rif_relay.Server.Relay.Requests.validate_view_call_succeeds
validate-IsAcceptable_example =
    validate-IsAcceptable small_server small_request serving
      (validate small_server small_request serving).1 small_details refl

is_trusted_verifier-init_example :
    is_trusted_verifier
      (119 ∷ [])
      (record serving { trusted_verifiers = init_trusted_verifiers small_config })
    ≡ ((any (λ a. is_same_address a (119 ∷ [])) ((86 ∷ []) ∷ [])
          || (not (text_eq (87 ∷ []) zero_address) && is_same_address (87 ∷ []) (119 ∷ [])))
        || (not (text_eq zero_address zero_address) && is_same_address zero_address (119 ∷ [])))
is_trusted_verifier-init_example = is_trusted_verifier-init small_config serving (119 ∷ [])

-- A node that has no gas price makes the round fail.
abbrev priceless : ServerEnv
priceless = record small_server { config = record small_config { with_factor = λ p. 0 } }

abbrev later : ServerState
later = record serving { last_refresh_block = 0 }

interval_handler-failed_example : is_ready priceless (interval_handler priceless later) ≡ false
unfolding worker_semaphore rif_relay.Server.Relay.Worker.run_worker rif_relay.Base.Exec.◌>>=◌
    rif_relay.Server.Relay.should_refresh_state rif_relay.Server.Relay.refresh_gas_price
interval_handler-failed_example =
    interval_handler-failed priceless later 9 no_gas_price (omega arith) refl (omega arith) refl
