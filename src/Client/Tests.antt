-- ===== src/Client/Tests.antt =====
-- The theorems on the client, at two relays of which one does not answer.
pub mod Chain
pub mod Relaying
use rif_relay.Base.{
  All, All-map_of, List, Memᴰ, [], arith, false, if◌then◌else◌, length, ltb, none, refl, some,
  text_eq, true, ℕ, ◌%◌, ◌&&◌, ◌++◌, ◌+◌, ◌-◌, ◌==◌, ◌^◌, ◌||◌, ◌∷◌, ◌≡◌,
}
use rif_relay.Base.Exec.{err, more_than_allowed, node_error, nonce_too_long, ok}
use rif_relay.Client.Discovery.{DiscoveryEnv, search_trx, search_wallets}
use rif_relay.Client.Discovery.Gap.{IsBounded, Scans, search_wallets-Scans}
use rif_relay.Client.Known.{
  KnownEnv, KnownState, RelayInfo, active_relays, get_past_events_for_hub, info_of, split_range,
}
use rif_relay.Client.Known.Latest.{Registers, active_relays-IsLatest}
use rif_relay.Client.Known.Ranges.{count_of, split_range-covers}
use rif_relay.Client.Known.Window.{get_past_events_for_hub-fuel}
use rif_relay.Client.Selection.{
  PingResponse, SelectionEnv, SelectionState, Winner, race_to_success, relays_left, select_any,
  select_next_relay, unsettled,
}
use rif_relay.Client.Selection.Order.{IsGone, select_next_relay-IsGone}
use rif_relay.Client.Selection.Race.{race_to_success-resolves}
use rif_relay.Client.Selection.Stops.{IsSettling, select_any-fuel, select_any-none}
use rif_relay.Client.Validator.{
  Requested, ReturnedTx, check_nonce, received_nonce, validate_relay_response,
}
use rif_relay.Common.Events.{EventData, EventKind, relay_server_registered, stake_unlocked}

abbrev relay : ℕ → RelayInfo
relay n = record { relay_url = n ∷ []; relay_manager = some (n ∷ []) }

abbrev answer : PingResponse
answer = record {
  relay_worker_address = [];
  relay_manager_address = [];
  relay_hub_address = [];
  min_gas_price = 1;
  ready = true;
}

-- The relay 1 is down; pings settle in the order in which they were made.
abbrev one_down : SelectionEnv
one_down = record {
  slice_size = 1;
  ping = λ url t. if text_eq url (1 ∷ []) then err node_error else ok answer;
  ping_filter = λ p. ok tt;
  settle_order = λ rs t. rs;
  relay_info_for_manager = λ a t. ok [];
}

its_members : (rs : List RelayInfo) → All (λ r. Memᴰ r rs) rs
its_members [] = tt
its_members (r ∷ rs) =
    (Memᴰ.head refl, All-map_of (λ q. Memᴰ q rs) (λ q m. Memᴰ.tail m) rs (its_members rs))

one_down-IsSettling : IsSettling one_down
one_down-IsSettling = record { only_pinged = λ rs t. its_members rs }

abbrev starting : List RelayInfo → SelectionState
starting relays = record {
  remaining_relays = [] ∷ relays ∷ [];
  is_initialized = true;
  errors = [];
  time = 0;
}

abbrev two : SelectionState
two = starting (relay 1 ∷ relay 2 ∷ [])

select_any-fuel_example : select_any one_down 3 two ≡ select_any one_down 8 two
unfolding relays_left
select_any-fuel_example =
    select_any-fuel one_down one_down-IsSettling 3 8 two (omega arith) (omega arith)

abbrev found : Winner
found = record { ping_response = answer; relay_info = relay 2 }

abbrev after_found : SelectionState
after_found = (select_next_relay one_down false 3 two).1

select_next_relay-IsGone_example : IsGone (2 ∷ []) after_found
unfolding select_next_relay select_any rif_relay.Client.Selection.next_slice
    rif_relay.Base.Exec.◌>>=◌ rif_relay.Client.Selection.next_relay_internal race_to_success
    rif_relay.Client.Selection.get_relay_address_ping rif_relay.Base.Strings.text_eq
    rif_relay.Base.Dict.put rif_relay.Client.Selection.handle_race_results rif_relay.Base.Dict.get
    rif_relay.Client.Selection.resolve_winner
select_next_relay-IsGone_example =
    select_next_relay-IsGone one_down false 3 two after_found found refl

abbrev after_none : SelectionState
after_none = (select_any one_down 3 (starting (relay 1 ∷ []))).1

select_any-none_example : relays_left after_none ≡ []
unfolding select_any rif_relay.Client.Selection.next_slice rif_relay.Base.Exec.◌>>=◌
    rif_relay.Client.Selection.next_relay_internal race_to_success
    rif_relay.Client.Selection.get_relay_address_ping rif_relay.Base.Strings.text_eq
    rif_relay.Base.Dict.put rif_relay.Client.Selection.handle_race_results rif_relay.Base.Dict.get
select_any-none_example =
    select_any-none one_down 3 (starting (relay 1 ∷ [])) after_none (omega arith) refl

race_to_success-resolves_example :
    ¬ (race_to_success one_down (relay 1 ∷ relay 2 ∷ []) 0 ≡ unsettled)
unfolding rif_relay.Base.Strings.text_eq
race_to_success-resolves_example =
    race_to_success-resolves one_down (relay 1 ∷ relay 2 ∷ []) 0 (omega arith) refl
      ((refl, tt), (tt, tt))

-- Two relays of one url, both down: the race is not resolved.
same_url : race_to_success one_down (relay 1 ∷ relay 1 ∷ []) 0 ≡ unsettled
unfolding race_to_success rif_relay.Client.Selection.get_relay_address_ping
    rif_relay.Base.Strings.text_eq rif_relay.Base.Dict.put
same_url = refl

-- Preferred relays 1, 1', 2 in slices of one: the second is skipped after the first has failed.
abbrev preferred : SelectionState
preferred = record two { remaining_relays = (relay 1 ∷ relay 2 ∷ []) ∷ [] ∷ [] }

skipped : (select_next_relay one_down true 3 preferred).0 ≡ ok none
unfolding select_next_relay rif_relay.Client.Selection.select_preferred
    rif_relay.Client.Selection.preferred_slice rif_relay.Base.Exec.◌>>=◌
    rif_relay.Client.Selection.next_relay_internal race_to_success
    rif_relay.Client.Selection.get_relay_address_ping rif_relay.Base.Strings.text_eq
    rif_relay.Base.Dict.put rif_relay.Client.Selection.handle_race_results rif_relay.Base.Dict.get
skipped = refl

abbrev event : ℕ → EventKind → EventData
event block kind = record {
  kind = kind;
  block_number = block;
  transaction_index = 0;
  relay_manager = 1 ∷ [];
  relay_url = 1 ∷ [];
  new_relay_workers = [];
  withdraw_block = 0;
}

abbrev exits : List EventData
exits = event 3 stake_unlocked ∷ []

abbrev registrations : List EventData
registrations = event 5 relay_server_registered ∷ event 2 relay_server_registered ∷ []

active_relays-IsLatest_example :
    (e : EventData) × (relay 1 ≡ info_of e) × Registers (1 ∷ []) e (exits ++ registrations)
unfolding active_relays rif_relay.Base.Dict.get rif_relay.Client.Known.apply_all
    rif_relay.Base.Sort.sort rif_relay.Client.Known.earliest_first
    rif_relay.Client.Known.apply_event rif_relay.Base.Dict.put rif_relay.Base.Dict.delete
    rif_relay.Base.Strings.text_eq
active_relays-IsLatest_example = active_relays-IsLatest exits registrations (1 ∷ []) (relay 1) refl

split_range-covers_example :
    count_of 9 (split_range 1 10 3)
    ≡ (if ltb 9 1 || ltb 10 9 then 0 else if 9 == 10 && (10 - 1) % 4 == 0 then 0 else 1)
split_range-covers_example = split_range-covers 1 10 3 9 (omega arith) (omega arith)

-- The last block is in no part.
last_block : count_of 3 (split_range 1 3 2) ≡ 0
unfolding split_range count_of rif_relay.Client.Known.split_from
last_block = refl

abbrev crowded : KnownEnv
crowded = record {
  preferred_relays = [];
  relay_lookup_window_blocks = 1000;
  relay_timeout_grace = 60;
  relay_filter = λ r. true;
  score = λ r fs. 10 - length fs;
  hub_events = λ r t. if ltb 50 (r.to_block - r.from_block) then err more_than_allowed else ok [];
  register_events = λ ms t. ok [];
  exit_events = λ ms t. ok [];
  block_number = λ t. ok 100;
}

abbrev whole_window : KnownState
whole_window = record {
  latest_scanned_block = 0;
  relay_failures = [];
  relay_lookup_window_parts = 1;
  preferred_relayers = [];
  all_relayers = [];
  time = 0;
}

get_past_events_for_hub-fuel_example :
    get_past_events_for_hub crowded 9 1 100 whole_window
    ≡ get_past_events_for_hub crowded 3 1 100 whole_window
get_past_events_for_hub-fuel_example =
    get_past_events_for_hub-fuel crowded 6 1 100 whole_window (omega arith)

-- Wallets 0 and 2 of an owner are active; an address is its owner's, then its index.
abbrev two_wallets : DiscoveryEnv
two_wallets = record {
  balance = λ a. if text_eq a (7 ∷ 0 ∷ []) || text_eq a (7 ∷ 2 ∷ []) then 5 else 0;
  transaction_count = λ a. 0;
  tokens = [];
  token_balance = λ token a. 0;
  eoa_gap = 1;
  s_wallet_gap = 1;
  address_of = λ account index. (index + 7) ∷ [];
  wallet_of = λ owner index. owner ++ index ∷ [];
}

none_from_three : IsBounded two_wallets (7 ∷ []) 3
unfolding search_trx rif_relay.Base.Strings.text_eq
none_from_three i h = ground arith

search_wallets-Scans_example :
    Scans two_wallets (7 ∷ []) 0 0 (search_wallets two_wallets 6 0 0 (7 ∷ []))
search_wallets-Scans_example =
    search_wallets-Scans two_wallets 6 0 0 3 (7 ∷ []) none_from_three (omega arith)

abbrev requested : Requested
requested = record {
  relay_hub_address = 104 ∷ [];
  encoded_call = 1 ∷ [];
  relay_worker = 119 ∷ [];
  relay_max_nonce = 4;
}

abbrev returned : ReturnedTx
returned = record { to = 104 ∷ []; payload = 1 ∷ []; sender = 87 ∷ []; nonce = some 3 }

abbrev long : ReturnedTx
long = record returned { nonce = some (2 ^ 48) }

validates_returned : validate_relay_response requested returned ≡ ok true
unfolding check_nonce received_nonce rif_relay.Base.Strings.text_eq rif_relay.Base.Strings.to_lower
    rif_relay.Common.Utils.is_same_address validate_relay_response
validates_returned = refl

refuses_long : validate_relay_response requested long ≡ err nonce_too_long
unfolding check_nonce received_nonce rif_relay.Base.Strings.text_eq rif_relay.Base.Strings.to_lower
    rif_relay.Common.Utils.is_same_address validate_relay_response
refuses_long = refl
