-- ===== src/Client/Selection.antt =====
-- src/relayclient/RelaySelectionManager.ts. The order in which the pings of a race settle is a
-- parameter; a race that never resolves, and so never lets its caller go on, is the error
-- `never_settles`. The loops take fuel.
pub mod Order
pub mod Picked
pub mod Left
pub mod Race
pub mod Stops
use rif_relay.Base.{
  Bool, List, Option, Text, [], drop, filter, flatten, holds, if◌then◌else◌, is_some, length, map,
  none, not, some, suc, take, text_eq, true, zero, ℕ, ◌&&◌, ◌+◌, ◌==◌, ◌∷◌,
}
use rif_relay.Base.Dict.{Dict, get, put}
use rif_relay.Base.Exec.{
  Error, Exec, Result, err, never_settles, no_register_event, not_initialized, ok, out_of_fuel,
  pure, relay_not_ready, ◌>>=◌, ◌>>◌,
}
use rif_relay.Client.Known.{RelayInfo, is_info_from_event}
use rif_relay.Common.Interactor.{is_initialized}
use rif_relay.Common.Utils.{Address}

pub record PingResponse : Type 0 where
  pub relay_worker_address : Address
  pub relay_manager_address : Address
  pub relay_hub_address : Address
  pub min_gas_price : ℕ
  pub ready : Bool

-- `PartialRelayInfo` and `RelayInfo`.
pub record Winner : Type 0 where
  pub ping_response : PingResponse
  pub relay_info : RelayInfo

pub data RaceResult : Type 0 where
  settled : (winner : Option Winner) → (errors : Dict Error) → RaceResult
  unsettled : RaceResult

pub record SelectionEnv : Type 0 where
  pub slice_size : ℕ
  pub ping : Text → ℕ → Result PingResponse
  pub ping_filter : PingResponse → Result (Unit {0})
  pub settle_order : List RelayInfo → ℕ → List RelayInfo
  pub relay_info_for_manager : Address → ℕ → Result (List RelayInfo)

pub record SelectionState : Type 0 where
  pub remaining_relays : List (List RelayInfo)
  pub is_initialized : Bool
  pub errors : Dict Error
  pub time : ℕ

unfoldable pub init : List (List RelayInfo) → SelectionState → SelectionState
init sorted s = record s { remaining_relays = sorted; is_initialized = true }

unfoldable pub relays_left : SelectionState → List RelayInfo
relays_left s = flatten s.remaining_relays

module _ (env : SelectionEnv) where
  unfoldable pub get_relay_address_ping : RelayInfo → ℕ → Result Winner
  get_relay_address_ping info time = elim (env.ping info.relay_url time) [
    | err e ↦ err e
    | ok p ↦ if not p.ready then err relay_not_ready else elim (env.ping_filter p) [
      | err e ↦ err e
      | ok _ ↦ ok (record { ping_response = p; relay_info = info })
    ]
  ]

  -- The pings of `size` relays settle in the order of the list.
  unfoldable pub race : (size : ℕ) → List RelayInfo → Dict Error → ℕ → RaceResult
  race size [] errors time = unsettled
  race size (r ∷ rs) errors time =
      let rest = λ (e : Error). race size rs (put r.relay_url e errors) time in
      elim (get_relay_address_ping r time) [
        | ok winner ↦ settled (some winner) errors
        | err e ↦
            let errors' = put r.relay_url e errors in
            if length errors' == size then settled none errors' else rest e
      ]

  unfoldable pub race_to_success : List RelayInfo → ℕ → RaceResult
  unfolding race
  race_to_success relays time = race (length relays) (env.settle_order relays time) [] time

-- Neither the winner's url nor one that failed.
unfoldable pub is_left : Option Winner → Dict Error → RelayInfo → Bool
is_left winner errors r =
    not (holds (λ w. text_eq r.relay_url w.relay_info.relay_url) winner)
    && not (is_some (get r.relay_url errors))

-- Later entries overwrite: `new Map([...a, ...b])`.
abbrev pub merge : Dict Error → Dict Error → Dict Error
merge a [] = a
merge a ((k, e) ∷ b) = merge (put k e a) b

unfoldable pub handle_race_results : Option Winner → Dict Error → Exec SelectionState (Unit {0})
unfolding is_left
handle_race_results winner errors s = if not s.is_initialized then (err not_initialized, s) else (
  ok tt,
  record s {
    errors = merge s.errors errors;
    remaining_relays = map (filter (is_left winner errors)) s.remaining_relays;
  },
)

-- The first list with a relay left, up to the slice size.
unfoldable pub next_slice : ℕ → List (List RelayInfo) → List RelayInfo
next_slice size [] = []
next_slice size (relays ∷ lists) =
    if length (take size relays) == 0 then next_slice size lists else take size relays

abbrev first_list : List (List RelayInfo) → List RelayInfo
first_list [] = []
first_list (l ∷ ls) = l

unfoldable pub preferred_slice : (size index : ℕ) → List (List RelayInfo) → List RelayInfo
preferred_slice size index lists = take size (drop index (first_list lists))

-- A winner, or another round.
unfoldable pub or_again :
    Exec SelectionState (Option Winner) → Option Winner → Exec SelectionState (Option Winner)
or_again again none = again
or_again again (some w) = pure (some w)

module _ (env : SelectionEnv) where
  -- The winner as it is returned: a preferred relay is looked up by its manager's address.
  unfoldable pub resolve_winner : Winner → Exec SelectionState (Option Winner)
  resolve_winner w s = if is_info_from_event w.relay_info then (ok (some w), s) else (
    elim (env.relay_info_for_manager w.ping_response.relay_manager_address s.time) [
      | ok (info ∷ []) ↦
          ok (some (record w { relay_info = record info { relay_url = w.relay_info.relay_url } }))
      | ok _ ↦ err no_register_event
      | err e ↦ err e
    ],
    record s { time = s.time + 1 },
  )

  unfoldable pub next_relay_internal : List RelayInfo → Exec SelectionState (Option Winner)
  next_relay_internal relays s =
      let s' = record s { time = s.time + 1 } in
      elim (race_to_success env relays s.time) [
        | unsettled ↦ (err never_settles, s')
        | settled none errors ↦ (handle_race_results none errors >> pure none) s'
        | settled (some w) errors ↦ (handle_race_results (some w) errors >> resolve_winner w) s'
      ]

  -- The loop over all relays, in at most `fuel` rounds.
  unfoldable pub select_any : (fuel : ℕ) → Exec SelectionState (Option Winner)
  unfolding or_again
  select_any zero s = (err out_of_fuel, s)
  select_any (suc fuel) s =
      let again = select_any fuel in
      if not s.is_initialized
      then (err not_initialized, s)
      else elim (next_slice env.slice_size s.remaining_relays) [
        | [] ↦ (ok none, s)
        | r ∷ rs ↦ (next_relay_internal (r ∷ rs) >>= or_again again) s
      ]

  -- The loop over preferred relays from an index, in at most `fuel` rounds.
  unfoldable pub select_preferred : (fuel index : ℕ) → Exec SelectionState (Option Winner)
  unfolding or_again
  select_preferred zero index s = (err out_of_fuel, s)
  select_preferred (suc fuel) index s =
      let slice = preferred_slice env.slice_size index s.remaining_relays in
      let again = select_preferred fuel (index + length slice) in
      if not s.is_initialized then (err not_initialized, s) else elim slice [
        | [] ↦ (ok none, s)
        | r ∷ rs ↦ (next_relay_internal (r ∷ rs) >>= or_again again) s
      ]

  unfoldable pub select_next_relay :
      (only_preferred : Bool) → ℕ → Exec SelectionState (Option Winner)
  select_next_relay only_preferred fuel =
      if only_preferred then select_preferred fuel 0 else select_any fuel
