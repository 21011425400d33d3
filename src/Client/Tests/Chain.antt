-- ===== src/Client/Tests/Chain.antt =====
-- A chain that answers every request, and a client on it that pays 11.
use rif_relay.Base.{[], codes, false, if◌then◌else◌, ltb, none, some, true, ◌∷◌}
use rif_relay.Base.Exec.{ok}
use rif_relay.Client.Accounts.{AccountState, SigningEnv}
use rif_relay.Client.Known.{KnownEnv}
use rif_relay.Client.Relaying.{ClientEnv, Session, TransactionDetails}
use rif_relay.Client.Relaying.Loop.{Relaying}
use rif_relay.Client.Tests.{crowded, event, one_down, two, whole_window}
use rif_relay.Common.Events.{relay_server_registered}
use rif_relay.Common.Hex.{hex_text}
use rif_relay.Common.Interactor.{ChainEnv, ChainState}
use rif_relay.Common.Requests.{sender_of}

abbrev pub the_chain : ChainEnv
the_chain = record {
  relay_hub_address = 104 ∷ [];
  relay_verifier_address = 118 ∷ [];
  deploy_verifier_address = 100 ∷ [];
  component_version = codes "2.0.1";
  satisfies = λ v r. true;
  contract_at = λ a t. ok tt;
  hub_version = λ t. ok (codes "2.0.1");
  net_chain_id = λ t. ok 33;
  net_id = λ t. ok 33;
  net_type = λ t. ok (codes "private");
  forwarder_nonce = λ a t. ok 5;
  factory_nonce = λ f a t. ok 6;
  verify_relayed_call = λ r s t. ok tt;
  verify_deploy_call = λ r s t. ok tt;
  relay_call = λ r s g t. ok true;
  deploy_call = λ r s g t. ok [];
  encode_relay_call = λ r s. 1 ∷ s;
  encode_deploy_call = λ r s. 2 ∷ s;
  encode_transfer = λ a n. n ∷ a;
  estimate_relay_call = λ r t. ok 60000;
  estimate_deploy_call = λ r t. ok 90000;
  estimate_gas = λ p t. ok 60000;
  gas_price = λ t. ok 7;
  balance = λ a t. ok 10000000;
  transaction_count = λ a t. ok 3;
  code = λ a t. ok (codes "0x01");
  receipt = λ h t. if ltb t 2 then ok none else ok (some (record { logs = some ([] ∷ []) }));
  transaction_found = λ h t. ok false;
  send_signed = λ r t. ok tt;
}

abbrev pub the_signing : SigningEnv
the_signing = record {
  chain_id = 33;
  wallet_address = λ k. k;
  generate = λ n. n ∷ [];
  sign_typed_data = λ k d. ok k;
  recover_typed_signature = λ d s. ok (sender_of d.request);
  provider_answer =
      λ d t. record { error = none; response = some (record { error = none; result = 115 ∷ [] }) };
}

-- The hub says that relay 2 is registered.
abbrev pub registered : KnownEnv
registered = record crowded {
  hub_events = λ r t. ok (event 2 relay_server_registered ∷ []);
  register_events = λ ms t. ok (
      record (event 2 relay_server_registered) { relay_manager = 2 ∷ []; relay_url = 2 ∷ [] } ∷ []);
}

abbrev pub the_client : ClientEnv
the_client = record {
  config = record {
    gas_price_factor_percent = 50;
    min_gas_price = some 6;
    max_relay_nonce_gap = 3;
    relay_hub_address = 104 ∷ [];
    relay_verifier_address = 118 ∷ [];
    deploy_verifier_address = 100 ∷ [];
  };
  chain = the_chain;
  signing = the_signing;
  known = registered;
  selection = λ d. one_down;
  chain_id = 33;
  to_hex = hex_text;
  domain_separator_hash = λ a n. n ∷ a;
  relay_answer = λ url r t. ok (record { signed_tx = some (9 ∷ []); error = none });
  decode_transaction =
      λ raw. ok (record { to = 104 ∷ []; payload = 1 ∷ 115 ∷ []; sender = []; nonce = some 4 });
  hash_of = λ raw. 48 ∷ raw;
  clock = λ t. t;
}

abbrev pub asked : TransactionDetails
asked = record {
  from = 97 ∷ [];
  payload = codes "0xab";
  to = 116 ∷ [];
  token_contract = none;
  token_amount = none;
  token_gas = none;
  recoverer = none;
  index = none;
  value = none;
  gas = some (codes "0xc350");
  gas_price = some (codes "0xb");
  relay_hub = some (104 ∷ []);
  call_forwarder = some (102 ∷ []);
  call_verifier = none;
  is_smart_wallet_deploy = none;
  smart_wallet_address = none;
  use_enveloping = none;
  force_gas_price = none;
  force_gas = none;
  only_preferred_relays = none;
  retries = none;
  initial_backoff = none;
}

abbrev pub bound_chain : ChainState
bound_chain = record {
  time = 0;
  has_hub = true;
  has_relay_verifier = true;
  has_deploy_verifier = true;
  raw_tx_options = some (record { chain = []; chain_id = 33; network_id = 33 });
  broadcasts = [];
  slept = 0;
}

abbrev pub no_accounts : AccountState
no_accounts = record { accounts = []; requests = 0 }

abbrev pub the_session : Session
the_session = record {
  chain = bound_chain;
  accounts = no_accounts;
  known = whole_window;
  initialized = true;
  events = [];
  posts = 0;
}

abbrev pub two_left : Relaying
two_left = record { session = the_session; selection = two }
