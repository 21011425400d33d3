-- ===== src/Client/Known/Latest.antt =====
-- src/relayclient/KnownRelaysManager.ts: which relays `getRelayInfoForManagers` takes for active.
use rif_relay.Base.{
  All, All-at, All-map_of, List, Memᴰ, Text, [], arith, false, inl, inr, none_of, refl, some,
  text_eq, true, ◌++◌, ◌∷◌, ◌≡◌, ◌⊎◌,
}
use rif_relay.Base.Dict.{Dict, get, get-delete, get-put}
use rif_relay.Base.Sort.{All-unsort, IsSorted, Mem-unsort, sort, sort-IsSorted}
use rif_relay.Client.Known.{
  RelayInfo, active_relays, apply_all, apply_event, earliest_first, info_of,
}
use rif_relay.Common.Events.{EventData, is_registration, is_second_event_later}

earliest_first-total : (a b : EventData) → earliest_first a b ≡ false → earliest_first b a ≡ true
unfolding earliest_first
earliest_first-total a b h = ground arith

earliest_first_trans :
    (a b c : EventData)
    → earliest_first a b ≡ true
    → earliest_first b c ≡ true
    → earliest_first a c ≡ true
unfolding earliest_first
earliest_first_trans a b c h k = ground arith

earliest_first_refl : (a : EventData) → earliest_first a a ≡ true
unfolding earliest_first
earliest_first_refl a = ground arith

not_before : (b e : EventData) → earliest_first b e ≡ true → is_second_event_later e b ≡ false
unfolding earliest_first is_second_event_later
not_before b e h = ground arith

-- `b` is of another manager, or not later than `e`.
abbrev pub IsNotAfter : Text → EventData → EventData → Type 0
IsNotAfter m e b = text_eq b.relay_manager m ≡ true → is_second_event_later e b ≡ false

-- `e` registers the manager `m`, and no event of `m` is later.
pub record Registers (m : Text) (e : EventData) (events : List EventData) : Type 0 where
  pub is_event : Memᴰ e events
  pub registers : is_registration e ≡ true
  pub is_of : text_eq e.relay_manager m ≡ true
  pub is_last : All (IsNotAfter m e) events

get-apply_event :
    (m : Text) (e : EventData) (d : Dict RelayInfo) (x : RelayInfo)
    → get m (apply_event e d) ≡ some x
    → ((get m d ≡ some x) × (text_eq e.relay_manager m ≡ false))
      ⊎ ((x ≡ info_of e) × (is_registration e ≡ true) × (text_eq e.relay_manager m ≡ true))
unfolding apply_event
get-apply_event m e d x h =
    ground (arith, get-put e.relay_manager m (info_of e) d, get-delete e.relay_manager m d)

-- From sorted events: an active relay was there before and untouched, or its registration is last.
get-apply_all :
    (m : Text) (es : List EventData) (d : Dict RelayInfo) (x : RelayInfo)
    → IsSorted earliest_first es
    → get m (apply_all es d) ≡ some x
    → ((get m d ≡ some x) × All (λ b. text_eq b.relay_manager m ≡ false) es)
      ⊎ ((e : EventData) × (x ≡ info_of e) × Registers m e es)
unfolding apply_all
get-apply_all m [] d x s h = inl (h, tt)
get-apply_all m (e ∷ es) d x s h = elim (get-apply_all m es (apply_event e d) x s.1 h) [
  | inr (e', p, r) ↦ inr (
    e',
    p,
    record {
      is_event = Memᴰ.tail r.is_event;
      registers = r.registers;
      is_of = r.is_of;
      is_last = (
        λ _. not_before e e' (All-at (λ b. earliest_first e b ≡ true) es r.is_event s.0),
        r.is_last,
      );
    },
  )
  | inl (g, none_of) ↦ elim (get-apply_event m e d x g) [
    | inl (g', other) ↦ inl (g', (other, none_of))
    | inr (p, reg, of_m) ↦ inr (
      e,
      p,
      record {
        is_event = Memᴰ.head refl;
        registers = reg;
        is_of = of_m;
        is_last = (
          λ _. not_before e e (earliest_first_refl e),
          All-map_of (λ b. text_eq b.relay_manager m ≡ false) (λ b q c. absurd (ground arith)) es
              none_of,
        );
      },
    )
  ]
]

-- A relay that the merged events leave active under a manager's address is that of a registration
-- among them, and no event of this manager among them is later than it, on whichever list.
pub active_relays-IsLatest :
    (exits registered : List EventData) (m : Text) (x : RelayInfo)
    → get m (active_relays exits registered) ≡ some x
    → (e : EventData) × (x ≡ info_of e) × Registers m e (exits ++ registered)
unfolding active_relays get
active_relays-IsLatest exits registered m x h =
    elim (get-apply_all m (sort earliest_first (exits ++ registered)) [] x
      (sort-IsSorted earliest_first earliest_first-total earliest_first_trans _) h) [
        | inl (g, _) ↦ absurd (ground arith)
        | inr (e, p, r) ↦ (
          e,
          p,
          record {
            is_event = Mem-unsort earliest_first e (exits ++ registered) r.is_event;
            registers = r.registers;
            is_of = r.is_of;
            is_last = All-unsort earliest_first (IsNotAfter m e) (exits ++ registered) r.is_last;
          },
        )
      ]
