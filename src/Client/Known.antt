-- ===== src/Client/Known.antt =====
-- src/relayclient/KnownRelaysManager.ts. The clock is an argument, scores are numbers of the
-- configured calculator, and the relay filter is a parameter. Log lines are left out.
pub mod Ranges
pub mod Latest
pub mod Window
use rif_relay.Base.{
  Bool, List, Option, Text, [], filter, if◌then◌else◌, is_some, leb, ltb, map, min, none, or_else,
  some, suc, zero, ℕ, ◌*◌, ◌++◌, ◌+◌, ◌-◌, ◌/◌, ◌==◌, ◌∷◌,
}
use rif_relay.Base.Dict.{Dict, delete, get, put}
use rif_relay.Base.Exec.{
  Exec, Result, err, modify, more_than_allowed, ok, out_of_fuel, pure, too_many_events, ◌>>=◌, ◌>>◌,
}
use rif_relay.Base.Sort.{sort}
use rif_relay.Common.Events.{EventData, is_registration}
use rif_relay.Common.Utils.{Address}

-- `RelayInfoUrl`: a preferred relay, or one from an event, which has a manager.
pub record RelayInfo : Type 0 where
  pub relay_url : Text
  pub relay_manager : Option Address

-- `isInfoFromEvent`.
abbrev pub is_info_from_event : RelayInfo → Bool
is_info_from_event info = is_some info.relay_manager

pub record RelayFailureInfo : Type 0 where
  pub last_error_time : ℕ
  pub relay_manager : Address
  pub relay_url : Text

pub record Range : Type 0 where
  pub from_block : ℕ
  pub to_block : ℕ

pub record KnownState : Type 0 where
  pub latest_scanned_block : ℕ
  pub relay_failures : Dict (List RelayFailureInfo)
  pub relay_lookup_window_parts : ℕ
  pub preferred_relayers : List RelayInfo
  pub all_relayers : List RelayInfo
  pub time : ℕ

-- The configuration, and the answers of the network by the number of requests made before.
pub record KnownEnv : Type 0 where
  pub preferred_relays : List Text
  pub relay_lookup_window_blocks : ℕ
  pub relay_timeout_grace : ℕ
  pub relay_filter : RelayInfo → Bool
  pub score : RelayInfo → List RelayFailureInfo → ℕ
  pub hub_events : Range → ℕ → Result (List EventData)
  pub register_events : List Address → ℕ → Result (List EventData)
  pub exit_events : List Address → ℕ → Result (List EventData)
  pub block_number : ℕ → Result ℕ

abbrev request {ℓ} : {A : Type ℓ} → (ℕ → Result A) → KnownState → Result A × KnownState
request r s = (r s.time, record s { time = s.time + 1 })

-- The comparison of `getRelayInfoForManagers` is not positive: earliest first.
unfoldable pub earliest_first : EventData → EventData → Bool
earliest_first a b =
    if a.block_number == b.block_number
    then leb a.transaction_index b.transaction_index
    else leb a.block_number b.block_number

pub info_of : EventData → RelayInfo
info_of e = record { relay_url = e.relay_url; relay_manager = some e.relay_manager }

-- One round of `mergedEvents.forEach`.
unfoldable pub apply_event : EventData → Dict RelayInfo → Dict RelayInfo
unfolding info_of
apply_event e active =
    if is_registration e
    then put e.relay_manager (info_of e) active
    else delete e.relay_manager active

unfoldable pub apply_all : List EventData → Dict RelayInfo → Dict RelayInfo
apply_all [] active = active
apply_all (e ∷ es) active = apply_all es (apply_event e active)

unfoldable pub active_relays : (exits registered : List EventData) → Dict RelayInfo
active_relays exits registered = apply_all (sort earliest_first (exits ++ registered)) []

-- `Math.ceil(total / splits)`.
abbrev ceil_div : ℕ → ℕ → ℕ
ceil_div total splits = (total + splits - 1) / splits

-- The loop of `splitRange`, in at most `fuel` rounds.
unfoldable pub split_from : (fuel b to_block split_size : ℕ) → List Range
split_from zero b to_block split_size = []
split_from (suc fuel) b to_block split_size =
    let rest = split_from fuel (b + split_size) to_block split_size in
    if ltb b to_block
    then record { from_block = b; to_block = min to_block (b + split_size - 1) } ∷ rest
    else []

unfoldable pub split_range : (from_block to_block splits : ℕ) → List Range
split_range from_block to_block splits =
    split_from (to_block - from_block) from_block to_block
      (ceil_div (to_block - from_block + 1) splits)

module _ (env : KnownEnv) where
  -- `Promise.all` of the requests for the parts, made in order: all are made, and the first that is
  -- rejected rejects the whole.
  unfoldable pub fetch_parts : List Range → Exec KnownState (List EventData)
  fetch_parts [] s = (ok [], s)
  fetch_parts (r ∷ rs) s =
      let (rest, s') = fetch_parts rs (record s { time = s.time + 1 }) in
      (
        elim (env.hub_events r s.time) [
          | err e ↦ err e
          | ok events ↦ elim rest [ err e ↦ err e | ok more ↦ ok (events ++ more) ]
        ],
        s',
      )

  -- The `while (true)` of `getPastEventsForHub`, in at most `fuel` rounds.
  unfoldable pub get_past_events_for_hub :
      (fuel from_block to_block : ℕ) → Exec KnownState (List EventData)
  get_past_events_for_hub zero from_block to_block s = (err out_of_fuel, s)
  get_past_events_for_hub (suc fuel) from_block to_block s =
      let parts = s.relay_lookup_window_parts in
      let (r, s') = fetch_parts (split_range from_block to_block parts) s in
      let (q, s'') =
        get_past_events_for_hub fuel from_block to_block
          (record s' { relay_lookup_window_parts = parts * 4 }) in
      elim r [
        | ok events ↦ (ok events, s')
        | err more_than_allowed ↦
            if ltb parts env.relay_lookup_window_blocks
            then (if leb 16 parts then (err too_many_events, s') else (q, s''))
            else (err more_than_allowed, s')
        | err e ↦ (err e, s')
      ]

  unfoldable pub get_relay_info_for_managers : List Address → Exec KnownState (List RelayInfo)
  get_relay_info_for_managers [] = pure []
  get_relay_info_for_managers (m ∷ ms) = do
    registered ← request (env.register_events (m ∷ ms))
    exits ← request (env.exit_events (m ∷ ms))
    pure (filter env.relay_filter (map (λ e. e.1) (active_relays exits registered)))

  -- The managers of the events, each once: a `Set`.
  pub managers_of : List EventData → Dict (Unit {0}) → Dict (Unit {0})
  managers_of [] found = found
  managers_of (e ∷ es) found = managers_of es (put e.relay_manager tt found)

  unfoldable pub fetch_recently_active_relay_managers : (fuel : ℕ) → Exec KnownState (List Address)
  unfolding managers_of
  fetch_recently_active_relay_managers fuel = do
    to_block ← request env.block_number
    events ← get_past_events_for_hub fuel (to_block - env.relay_lookup_window_blocks) to_block
    modify (λ s. record s { latest_scanned_block = to_block })
    pure (map (λ e. e.0) (managers_of events []))

  -- Failures of the last `relayTimeoutGrace` seconds; `now` is in milliseconds.
  abbrev pub is_recent_failure : ℕ → RelayFailureInfo → Bool
  is_recent_failure now f = ltb now (f.last_error_time + env.relay_timeout_grace * 1000)

  unfoldable pub refresh_failures : ℕ → KnownState → KnownState
  refresh_failures now s = record s {
    relay_failures = map (λ e. (e.0, filter (is_recent_failure now) e.1)) s.relay_failures;
  }

  unfoldable pub refresh : (fuel now : ℕ) → Exec KnownState (Unit {0})
  refresh fuel now = do
    modify (refresh_failures now)
    managers ← fetch_recently_active_relay_managers fuel
    modify (λ s. record s {
      preferred_relayers =
          map (λ url. record { relay_url = url; relay_manager = none }) env.preferred_relays;
    })
    relays ← get_relay_info_for_managers managers
    modify (λ s. record s { all_relayers = relays })

  failures_of : KnownState → RelayInfo → List RelayFailureInfo
  failures_of s info = or_else (get info.relay_url s.relay_failures) []

  -- The scores by manager: of two relays with one manager the later counts.
  scores_of : KnownState → List RelayInfo → Dict ℕ → Dict ℕ
  unfolding failures_of
  scores_of s [] scores = scores
  scores_of s (r ∷ rs) scores = scores_of s rs (elim r.relay_manager [
    | none ↦ scores
    | some m ↦ put m (env.score r (failures_of s r)) scores
  ])

  pub score_in : Dict ℕ → RelayInfo → ℕ
  score_in scores r = or_else (get (or_else r.relay_manager []) scores) 0

  unfoldable pub sort_relays_internal : List RelayInfo → KnownState → List RelayInfo
  unfolding scores_of score_in
  sort_relays_internal relays s =
      let scores = scores_of s relays [] in
      sort (λ a b. leb (score_in scores b) (score_in scores a)) (filter is_info_from_event relays)

  unfoldable pub get_relays_sorted_for_transaction : KnownState → List (List RelayInfo)
  get_relays_sorted_for_transaction s =
      s.preferred_relayers ∷ sort_relays_internal s.all_relayers s ∷ []

  unfoldable pub save_relay_failure : (time : ℕ) → Address → Text → KnownState → KnownState
  save_relay_failure time manager url s =
      let failure : RelayFailureInfo = record {
        last_error_time = time;
        relay_manager = manager;
        relay_url = url;
      } in
      record s {
        relay_failures =
            put url (or_else (get url s.relay_failures) [] ++ failure ∷ []) s.relay_failures;
      }
