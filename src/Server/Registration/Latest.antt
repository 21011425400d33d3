-- ===== src/Server/Registration/Latest.antt =====
-- src/relayserver/RegistrationManager.ts: which registration the server takes for its own, and the
-- events that it delays.
use mathlib.Core.List.Perm
use mathlib.Core.List.{Perm, perm_middle}
use rif_relay.Base.{
  All, All-filter_self, All-map_of, Bool, Bool-cases, List, Option, [], arith, false, filter, holds,
  inl, inr, leb, ltb, map, none, not, some, true, ℕ, ◌++◌, ◌<◌, ◌∷◌, ◌≡◌, ◌⊎◌,
}
use rif_relay.Common.Events.{EventData, is_registration, is_second_event_later}
use rif_relay.Server.Registration.{
  DelayedEvent, RegistrationState, extract_due_pending_events, later_of, note_hub_event,
  note_hub_events,
}

-- `last` is not before `e`.
abbrev pub is_not_before : Option EventData → EventData → Bool
is_not_before last e = holds (λ n. not (is_second_event_later n e)) last

later_of-keeps :
    (last : Option EventData) (f e : EventData)
    → is_not_before last e ≡ true
    → is_not_before (later_of last f) e ≡ true
unfolding later_of is_second_event_later
later_of-keeps none f e h = ground arith
later_of-keeps (some n) f e h = ground arith

later_of-notes :
    (last : Option EventData) (f : EventData) → is_not_before (later_of last f) f ≡ true
unfolding later_of is_second_event_later
later_of-notes none f = ground arith
later_of-notes (some n) f = ground arith

noted_event :
    (e : EventData) (s : RegistrationState)
    → ((is_registration e ≡ true)
        × ((note_hub_event e s).last_mined_register_transaction
            ≡ later_of s.last_mined_register_transaction e))
      ⊎ ((is_registration e ≡ false)
          × ((note_hub_event e s).last_mined_register_transaction
              ≡ s.last_mined_register_transaction))
unfolding note_hub_event
noted_event e s = ground arith

note_hub_events-keeps :
    (es : List EventData) (s : RegistrationState) (e : EventData)
    → is_not_before s.last_mined_register_transaction e ≡ true
    → is_not_before (note_hub_events es s).last_mined_register_transaction e ≡ true
unfolding note_hub_events
note_hub_events-keeps [] s e h = h
note_hub_events-keeps (f ∷ fs) s e h =
    note_hub_events-keeps fs (note_hub_event f s) e (elim (noted_event f s) [
      | inl (_, p) ↦ rw p (later_of-keeps s.last_mined_register_transaction f e h)
      | inr (_, p) ↦ rw p h
    ])

-- After a scan of the hub's events, in whatever order they came, none of the registrations among
-- them is later than the one noted, and whatever was not later than the one noted before is not
-- later than it either.
pub note_hub_events-IsLatest :
    (es : List EventData) (s : RegistrationState)
    → All
        (λ e.
          is_registration e ≡ true
          → is_not_before (note_hub_events es s).last_mined_register_transaction e ≡ true)
        es
      × ((e : EventData)
          → is_not_before s.last_mined_register_transaction e ≡ true
          → is_not_before (note_hub_events es s).last_mined_register_transaction e ≡ true)
unfolding note_hub_events
note_hub_events-IsLatest [] s = (tt, λ e h. h)
note_hub_events-IsLatest (e ∷ es) s = (
  (
    λ r. note_hub_events-keeps es (note_hub_event e s) e (elim (noted_event e s) [
      | inl (_, p) ↦ rw p (later_of-notes s.last_mined_register_transaction e)
      | inr (q, _) ↦ absurd (ground (arith, q, r))
    ]),
    (note_hub_events-IsLatest es (note_hub_event e s)).0,
  ),
  note_hub_events-keeps (e ∷ es) s,
)

-- The events taken off as due and those that stay delayed are together exactly the delayed ones,
-- and the blocks of those that stay are still ahead.
pub extract_due_pending_events-perm :
    (block : ℕ) (delayed : List DelayedEvent)
    → let (due, left) = extract_due_pending_events block delayed in
      Perm (due ++ map (λ d. d.event_data) left) (map (λ d. d.event_data) delayed)
      × All (λ d. block < d.block) left
unfolding extract_due_pending_events
extract_due_pending_events-perm block delayed = (
  parts delayed,
  All-map_of (λ d. ltb block d.block ≡ true) (λ d h. ground arith) _
      (All-filter_self (λ d. ltb block d.block) delayed),
)
  where
    parts :
        (ds : List DelayedEvent)
        → Perm
            (map (λ d. d.event_data) (filter (λ d. leb d.block block) ds)
              ++ map (λ d. d.event_data) (filter (λ d. ltb block d.block) ds))
            (map (λ d. d.event_data) ds)
    parts [] = Perm.refl _
    parts (d ∷ ds) = elim (Bool-cases (leb d.block block)) [
      | inl e ↦
          let f : ltb block d.block ≡ false = ground (arith, e) in
          rw (e, f) (Perm.cons d.event_data (parts ds))
      | inr e ↦
          let f : ltb block d.block ≡ true = ground (arith, e) in
          rw (e, f)
            (Perm.trans
              (perm_middle (map (λ d. d.event_data) (filter (λ d. leb d.block block) ds))
                (map (λ d. d.event_data) (filter (λ d. ltb block d.block) ds)))
              (Perm.cons d.event_data (parts ds)))
    ]
