-- ===== src/Common/Events/Order.antt =====
-- Which event `getLatestEventData` of src/common/Utils.ts finds, and which urls are valid.
use rif_relay.Base.{
  All, All-map_of, List, Memᴰ, Text, [], append-nil, arith, false, head?, inl, inr, none, refl,
  some, subst, text_eq, true, ℕ, ◌&&◌, ◌+◌, ◌∷◌, ◌≡◌, ◌⊎◌,
}
use rif_relay.Base.Sort.{All-unsort, IsSorted, Mem-unsort, sort, sort-IsSorted}
use rif_relay.Common.Events.{
  EventData, get_latest_event_data, index_of, is_registration_valid, is_second_event_later,
  latest_first, registration_url,
}
use rif_relay.Common.Utils.{Address, is_same_address}

latest_first-total : (a b : EventData) → latest_first a b ≡ false → latest_first b a ≡ true
unfolding latest_first
latest_first-total a b h = ground arith

latest_first_trans :
    (a b c : EventData)
    → latest_first a b ≡ true
    → latest_first b c ≡ true
    → latest_first a c ≡ true
unfolding latest_first
latest_first_trans a b c h k = ground arith

latest_first_refl : (a : EventData) → latest_first a a ≡ true
unfolding latest_first
latest_first_refl a = ground arith

not_later : (e b : EventData) → latest_first e b ≡ true → is_second_event_later e b ≡ false
unfolding latest_first is_second_event_later
not_later e b h = ground arith

-- `e` is one of the events, and none of them is later.
abbrev pub IsLatest : EventData → List EventData → Type 0
IsLatest e events = Memᴰ e events × All (λ b. is_second_event_later e b ≡ false) events

head_of_sorted :
    (events sorted : List EventData)
    → sort latest_first events ≡ sorted
    → ((events ≡ []) × (head? sorted ≡ none))
      ⊎ ((e : EventData) × (head? sorted ≡ some e) × IsLatest e events)
head_of_sorted [] [] h = inl (refl, refl)
head_of_sorted (x ∷ xs) [] h = absurd (All-unsort latest_first (λ _. ⊥) (x ∷ xs) (rw h tt)).0
head_of_sorted events (e ∷ es) h =
    let s =
      subst (IsSorted latest_first) h
        (sort-IsSorted latest_first latest_first-total latest_first_trans events) in
    inr (
      e,
      refl,
      (
        Mem-unsort latest_first e events (rw h (Memᴰ.head refl)),
        All-unsort latest_first (λ b. is_second_event_later e b ≡ false) events
            (rw h (
              not_later e e (latest_first_refl e),
              All-map_of (λ b. latest_first e b ≡ true) (not_later e) es s.0,
            )),
      ),
    )

-- The event found is among the events given, no event among them is later than it, and it is
-- undefined only where there is none.
pub get_latest_event_data-IsLatest :
    (events : List EventData)
    → ((events ≡ []) × (get_latest_event_data events ≡ none))
      ⊎ ((e : EventData) × (get_latest_event_data events ≡ some e) × IsLatest e events)
unfolding get_latest_event_data
get_latest_event_data-IsLatest events = head_of_sorted events (sort latest_first events) refl

-- A configured url with a colon after its first character never gets the port: only a relay
-- registered under that very url is valid, whatever the port.
pub is_registration_valid-colon :
    (show : ℕ → Text) (url : Text) (port i : ℕ) (e : EventData) (manager : Address)
    → index_of 58 url ≡ some (i + 1)
    → is_registration_valid show url port (some e) manager
      ≡ (is_same_address e.relay_manager manager && text_eq e.relay_url url)
unfolding is_registration_valid registration_url
is_registration_valid-colon show url port i e manager h = ground (arith, append-nil url)
