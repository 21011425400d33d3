-- ===== src/Server/Tests.antt =====
-- A small server to run the definitions on: a store that is a list, a node with fixed answers, one
-- manager `m` and one worker `w`.
pub mod Sending
pub mod Keeping
pub mod Serving
use rif_relay.Base.{
  [], any, ap, codes, filter, find, if◌then◌else◌, none, not, or_else, refl, some, take, ◌++◌, ◌∷◌,
}
use rif_relay.Base.Exec.{err, ok, unique_violated}
use rif_relay.Base.Sort.{insert}
use rif_relay.Common.Events.{EventData, relay_server_registered, stake_unlocked}
use rif_relay.Common.Utils.{Address}
use rif_relay.Server.Node.{Node}
use rif_relay.Server.Store.{Datastore, IsDatastore, clash, replace, stored_form, without}
use rif_relay.Server.Store.Laws.{IsConsistent}
use rif_relay.Server.Stored.{StoredTx, relay_call}
use rif_relay.Server.Transactions.{EthTx, IsEthTx, SendDetails, TxEnv, TxState}

abbrev pub list_store : Datastore
list_store = record {
  find_all = filter;
  find_one = find;
  insert = λ t ds. if any (clash t) ds then err unique_violated else ok (ds ++ t ∷ []);
  update =
      λ q t ds. if any (clash t) (without q ds) then err unique_violated else ok (replace q t ds);
  remove = λ q ds. filter (λ x. not (q x)) ds;
}

pub list_store-IsDatastore : IsDatastore list_store
list_store-IsDatastore = record {
  find_all_lem = λ q ds. refl;
  find_one_lem = λ q ds. refl;
  insert_lem = λ t ds. refl;
  update_lem = λ q t ds h. refl;
  remove_lem = λ q ds. refl;
}

abbrev pub manager : Address
manager = 109 ∷ []

abbrev pub worker : Address
worker = 119 ∷ []

abbrev pub hub : Address
hub = 104 ∷ []

-- A raw transaction is its nonce, its price and its signature; its hash is the first two.
abbrev pub small_eth : EthTx
small_eth = record {
  new_transaction = λ p. record {
    to = p.to;
    gas_limit = p.gas_limit;
    gas_price = p.gas_price.num;
    payload = p.payload;
    nonce = or_else p.nonce 0;
    signature = [];
  };
  sign = λ key t. record t { signature = key };
  hash = λ t. t.nonce ∷ t.gas_price ∷ [];
  serialize = λ t. t.nonce ∷ t.gas_price ∷ t.signature;
}

pub small_eth-IsEthTx : IsEthTx small_eth
small_eth-IsEthTx = record { nonce_lem = λ p n h. ap (λ o. or_else o 0) h; sign_lem = λ k t. refl }

-- The manager registered in block 2.
abbrev pub registered_event : EventData
registered_event = record {
  kind = relay_server_registered;
  block_number = 2;
  transaction_index = 0;
  relay_manager = manager;
  relay_url = codes "http://r";
  new_relay_workers = [];
  withdraw_block = 0;
}

abbrev pub unlocked_event : EventData
unlocked_event = record registered_event {
  kind = stake_unlocked;
  block_number = 5;
  withdraw_block = 7;
}

abbrev pub small_node : Node
small_node = record {
  gas_price = λ t. ok 2;
  transaction_count = λ pending a t. ok 1;
  transaction = λ id t. ok (some (record { block_number = some 3; from = worker; nonce = 1 }));
  broadcast = λ raw t. ok (take 2 raw);
  balance = λ pending a t. ok 50000;
  estimate_gas = λ method from t. ok 60000;
  block_number = λ t. ok 9;
  hub_events = λ from kinds t. ok (registered_event ∷ []);
  stake_events = λ from t. ok (unlocked_event ∷ []);
  stake_info = λ a t. ok (record { stake = 100; withdraw_block = 7; owner = hub });
}

abbrev pub small_tx_env : TxEnv
small_tx_env = record {
  datastore = list_store;
  node = small_node;
  eth = small_eth;
  manager_keys = (manager, 1 ∷ []) ∷ [];
  workers_keys = (worker, 2 ∷ []) ∷ [];
  tx_config = record {
    confirmations_needed = 2;
    pending_timeout_blocks = 3;
    retry = record { num = 6; den = 5 };
    max_gas_price = 100;
    default_gas_limit = 70000;
    estimate_gas = λ g. g;
  };
}

-- Both signers start at nonce 0.
abbrev pub started : TxState
started = record { nonces = (manager, 0) ∷ (worker, 0) ∷ []; docs = []; sent = []; time = 0 }

abbrev pub relayed : SendDetails
relayed = record {
  signer = worker;
  action = relay_call;
  encoded_call = some (codes "0x01");
  destination = hub;
  value = none;
  gas_limit = 60000;
  gas_price = some 10;
  creation_block = 1;
}

-- What the first relayed transaction is stored as.
abbrev pub stored_tx : StoredTx
stored_tx = record {
  metadata = record {
    from = worker;
    attempts = 1;
    action = relay_call;
    creation_block = 1;
    boost_block = none;
    mined_block = none;
  };
  to = hub;
  gas = 60000;
  gas_price = 10;
  payload = codes "0x01";
  nonce = 1;
  tx_id = 1 ∷ 10 ∷ [];
  nonce_signer = none;
}

abbrev pub pending_tx : StoredTx
pending_tx = record stored_tx { nonce_signer = some (record { nonce = 1; signer = worker }) }

-- One transaction of the worker is pending.
abbrev pub busy : TxState
busy = record started { docs = pending_tx ∷ [] }

pub busy-IsConsistent : IsConsistent busy.docs
unfolding stored_form rif_relay.Base.Strings.to_lower
busy-IsConsistent = record { unique = (refl, tt); keyed = (refl, tt) }
