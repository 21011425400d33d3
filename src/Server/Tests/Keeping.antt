-- ===== src/Server/Tests/Keeping.antt =====
-- The theorems on the store, the keys and the registration, on the small server.
use rif_relay.Base.{
  All, Text, [], ap, arith, codes, drop, false, if◌then◌else◌, leb, none, refl, some, true, ℕ, ◌&&◌,
  ◌++◌, ◌==◌, ◌∷◌, ◌≡◌,
}
use rif_relay.Base.Dict.{get}
use rif_relay.Base.Exec.{ok}
use rif_relay.Common.Events.{EventData, is_registration}
use rif_relay.Common.Hex.Bytes.{IsBytes, byte_digits}
use rif_relay.Common.Utils.{is_same_address}
use rif_relay.Server.Keys.{Keys, Wallet, generate_keys}
use rif_relay.Server.Keys.Keystore.{KeyFiles, KeystoreEnv, keystore_path, open_keys}
use rif_relay.Server.Keys.Keystore.Reopened.{IsKeystoreEnv, open_keys-again}
use rif_relay.Server.Keys.Laws.{IsInjective}
use rif_relay.Server.Registration.{RegistrationEnv, RegistrationState, note_hub_events}
use rif_relay.Server.Registration.Latest.{is_not_before, note_hub_events-IsLatest}
use rif_relay.Server.Store.{get_tx_by_nonce, put_tx, remove_txs_until_nonce, stored_form}
use rif_relay.Server.Store.Laws.{get_tx_by_nonce-put_tx, get_tx_by_nonce-remove_txs_until_nonce}
use rif_relay.Server.Tests.{
  busy, hub, list_store, list_store-IsDatastore, manager, pending_tx, registered_event,
  small_tx_env, stored_tx, unlocked_event, worker,
}

get_tx_by_nonce-put_tx_example :
    get_tx_by_nonce list_store worker 1 (pending_tx ∷ []) ≡ some (stored_form stored_tx)
unfolding put_tx rif_relay.Base.Exec.◌>>=◌ rif_relay.Base.Strings.text_eq stored_form
    rif_relay.Base.Strings.to_lower
get_tx_by_nonce-put_tx_example =
    get_tx_by_nonce-put_tx list_store list_store-IsDatastore stored_tx false [] (pending_tx ∷ [])
      refl

get_tx_by_nonce-remove_txs_until_nonce_example :
    get_tx_by_nonce list_store worker 1 (remove_txs_until_nonce list_store worker 3 busy.docs) ≡ (
      if is_same_address worker worker && leb 1 3
      then none
      else get_tx_by_nonce list_store worker 1 busy.docs)
get_tx_by_nonce-remove_txs_until_nonce_example =
    get_tx_by_nonce-remove_txs_until_nonce list_store list_store-IsDatastore worker worker 3 1
      busy.docs

abbrev numbered : ℕ → Wallet
numbered i = record { address = i ∷ []; private_key = i ∷ i ∷ [] }

numbered-IsInjective : IsInjective numbered
numbered-IsInjective i j e = ground (arith, e)

abbrev pub small_registration_env : RegistrationEnv
small_registration_env = record {
  tx_env = small_tx_env;
  manager_address = manager;
  worker_address = worker;
  hub_address = hub;
  url = codes "http://r";
  port = 8090;
  show = λ n. n ∷ [];
  add_relay_workers_method = λ ws. codes "0xaa";
  register_relay_method = λ u. codes "0xbb";
}

-- Registered, staked and funded, with the worker's transaction pending.
abbrev pub registered_state : RegistrationState
registered_state = record {
  tx = busy;
  balance_required = record { current_value = 10; required_value = 5 };
  stake_required = record { current_value = 10; required_value = 5 };
  is_stake_locked = true;
  is_initialized = true;
  owner_address = some hub;
  last_mined_register_transaction = none;
  last_worker_added_transaction = none;
  delayed_events = record { block = 4; event_data = unlocked_event } ∷ [];
  unstaked_emitted = 0;
}

abbrev scanned : RegistrationState
scanned = note_hub_events (registered_event ∷ []) registered_state

note_hub_events-IsLatest_example :
    All
      (λ e.
        is_registration e ≡ true → is_not_before scanned.last_mined_register_transaction e ≡ true)
      (registered_event ∷ [])
    × ((e : EventData)
        → is_not_before registered_state.last_mined_register_transaction e ≡ true
        → is_not_before scanned.last_mined_register_transaction e ≡ true)
note_hub_events-IsLatest_example = note_hub_events-IsLatest (registered_event ∷ []) registered_state

-- What stands before the first quotation mark.
abbrev to_quote : Text → Text
to_quote [] = []
to_quote (c ∷ s) = let rest = to_quote s in if c == 34 then [] else c ∷ rest

to_quote-byte_digits :
    (s : Text) → IsBytes s → to_quote (byte_digits s ++ 34 ∷ 125 ∷ []) ≡ byte_digits s
unfolding IsBytes byte_digits rif_relay.Common.Hex.digit
to_quote-byte_digits [] h = refl
to_quote-byte_digits (c ∷ s) (high, h) = ground (arith, to_quote-byte_digits s h)

abbrev small_keystore : KeystoreEnv
small_keystore = record {
  seed_in = λ t. ok (to_quote (drop 9 t));
  drawn_seed = λ n. 16 ∷ 255 ∷ [];
  derive = λ seed n. record { address = n ∷ []; private_key = n ∷ seed };
}

small_keystore-IsKeystoreEnv : IsKeystoreEnv small_keystore
unfolding IsBytes
small_keystore-IsKeystoreEnv = record {
  draws_bytes = λ n. (omega arith, (omega arith, tt));
  reads_seed = λ seed h. ap (λ t. ok t) (to_quote-byte_digits seed h);
}

abbrev no_keys : KeyFiles
no_keys = record { key_files = []; draws = 0 }

abbrev opened : KeyFiles
opened = (open_keys small_keystore 2 (some (codes "w")) none no_keys).1

abbrev two_keys : Keys
two_keys = (0 ∷ [], 0 ∷ 16 ∷ 255 ∷ []) ∷ (1 ∷ [], 1 ∷ 16 ∷ 255 ∷ []) ∷ []

open_keys-again_example :
    (seed : Text) × (two_keys ≡ generate_keys (small_keystore.derive seed) 2)
    × ((again : KeyFiles) (more : ℕ)
        → get (keystore_path (codes "w")) again.key_files
          ≡ get (keystore_path (codes "w")) opened.key_files
        → open_keys small_keystore more (some (codes "w")) none again
          ≡ (ok (generate_keys (small_keystore.derive seed) more), again))
unfolding open_keys rif_relay.Base.Dict.get rif_relay.Base.Dict.put rif_relay.Base.Exec.◌>>=◌
    rif_relay.Base.Strings.text_eq rif_relay.Server.Keys.Keystore.create_seed
    rif_relay.Server.Keys.Keystore.draw_seed rif_relay.Server.Keys.Keystore.seed_for
    rif_relay.Server.Keys.Keystore.seed_from rif_relay.Server.Keys.Keystore.stored_seed
    rif_relay.Server.Keys.generate_keys
open_keys-again_example =
    open_keys-again small_keystore small_keystore-IsKeystoreEnv (codes "w") 2 no_keys opened
      two_keys refl
