-- ===== src/Client/Selection/Order.antt =====
-- src/relayclient/RelaySelectionManager.ts: no relay is returned twice.
use rif_relay.Base.{
  All, All-filter_self, All-map_of, Bool, List, List-cases, Option, Option-cases, Text, arith,
  false, filter, flatten, flatten-map-filter, inl, inr, length, map, some, suc, text_eq, true, zero,
  ℕ, ◌+◌, ◌∷◌, ◌≡◌, ◌⊎◌,
}
use rif_relay.Base.Dict.{Dict}
use rif_relay.Base.Exec.{>>=-eq-ok, Error, Exec, ok, ◌>>=◌}
use rif_relay.Client.Known.{RelayInfo}
use rif_relay.Client.Selection.{
  SelectionEnv, SelectionState, Winner, handle_race_results, is_left, next_relay_internal,
  next_slice, or_again, preferred_slice, race_to_success, relays_left, resolve_winner, select_any,
  select_next_relay, select_preferred,
}
use rif_relay.Client.Selection.Stops.{RaceResult-cases}

-- No relay that is left has this url.
abbrev pub IsGone : Text → SelectionState → Type 0
IsGone url s = All (λ r. text_eq r.relay_url url ≡ false) (relays_left s)

is_left-IsGone :
    (w : Winner) (errors : Dict Error) (rs : List RelayInfo)
    → All
        (λ r. text_eq r.relay_url w.relay_info.relay_url ≡ false)
        (filter (is_left (some w) errors) rs)
unfolding is_left
is_left-IsGone w errors rs =
    All-map_of (λ r. is_left (some w) errors r ≡ true) (λ r h. ground arith) _
      (All-filter_self (is_left (some w) errors) rs)

module _ (env : SelectionEnv) where
  next_relay_internal-IsGone :
      (relays : List RelayInfo) (s s' : SelectionState) (w : Winner)
      → next_relay_internal env relays s ≡ (ok (some w), s')
      → IsGone w.relay_info.relay_url s'
  unfolding next_relay_internal handle_race_results resolve_winner relays_left ◌>>=◌
  next_relay_internal-IsGone relays s s' w h =
      elim (RaceResult-cases (race_to_success env relays s.time)) [
        | inl (errors, e) ↦ absurd (ground (arith, e))
        | inr (inl e) ↦ absurd (ground (arith, e))
        | inr (inr (v, errors, e)) ↦
            let gone : All (λ r. text_eq r.relay_url v.relay_info.relay_url ≡ false)
                (flatten (map (filter (is_left (some v) errors)) s.remaining_relays)) =
              rw (flatten-map-filter (is_left (some v) errors) s.remaining_relays)
                (is_left-IsGone v errors (flatten s.remaining_relays)) in
            let left : s'.remaining_relays
                ≡ map (filter (is_left (some v) errors)) s.remaining_relays =
              ground (arith, e) in
            let same : w.relay_info.relay_url ≡ v.relay_info.relay_url = ground (arith, e) in
            rw (left, same) gone
      ]

  -- A winner comes from the round itself or from the rounds after it.
  pub round-some :
      (m again : Exec SelectionState (Option Winner)) (s s' : SelectionState) (w : Winner)
      → (m >>= or_again again) s ≡ (ok (some w), s')
      → (m s ≡ (ok (some w), s')) ⊎ (again (m s).1 ≡ (ok (some w), s'))
  unfolding or_again
  round-some m again s s' w h =
      let (a, q, k) = >>=-eq-ok m (or_again again) s h in
      elim (Option-cases a) [
        | inl z ↦ inr (ground (arith, k, z))
        | inr (v, z) ↦ inl (ground (arith, q, k, z))
      ]

  round-IsGone :
      (again : Exec SelectionState (Option Winner)) (slice : List RelayInfo) (s s' : SelectionState)
      (w : Winner)
      → ((t : SelectionState) → again t ≡ (ok (some w), s') → IsGone w.relay_info.relay_url s')
      → (next_relay_internal env slice >>= or_again again) s ≡ (ok (some w), s')
      → IsGone w.relay_info.relay_url s'
  round-IsGone again slice s s' w later h =
      elim (round-some (next_relay_internal env slice) again s s' w h) [
        | inl now ↦ next_relay_internal-IsGone slice s s' w now
        | inr next ↦ later _ next
      ]

  select_any-IsGone :
      (f : ℕ) (s s' : SelectionState) (w : Winner)
      → select_any env f s ≡ (ok (some w), s')
      → IsGone w.relay_info.relay_url s'
  unfolding select_any
  select_any-IsGone zero s s' w h = absurd (ground arith)
  select_any-IsGone (suc f) s s' w h =
      elim (List-cases (next_slice env.slice_size s.remaining_relays)) [
        | inl p ↦ absurd (ground (arith, p))
        | inr (r, rs, p) ↦
            round-IsGone (select_any env f) (r ∷ rs) s s' w (λ t. select_any-IsGone f t s' w)
              (ground (arith, p))
      ]

  select_preferred-IsGone :
      (f index : ℕ) (s s' : SelectionState) (w : Winner)
      → select_preferred env f index s ≡ (ok (some w), s')
      → IsGone w.relay_info.relay_url s'
  unfolding select_preferred
  select_preferred-IsGone zero index s s' w h = absurd (ground arith)
  select_preferred-IsGone (suc f) index s s' w h =
      let slice = preferred_slice env.slice_size index s.remaining_relays in
      let next = index + length slice in
      elim (List-cases slice) [
        | inl p ↦ absurd (ground (arith, p))
        | inr (r, rs, p) ↦
            round-IsGone (select_preferred env f next) (r ∷ rs) s s' w
              (λ t. select_preferred-IsGone f next t s' w) (ground (arith, p))
      ]

  -- Over all relays or over the preferred ones: once a relay is returned, none with its url is
  -- left.
  pub select_next_relay-IsGone :
      (only_preferred : Bool) (f : ℕ) (s s' : SelectionState) (w : Winner)
      → select_next_relay env only_preferred f s ≡ (ok (some w), s')
      → IsGone w.relay_info.relay_url s'
  unfolding select_next_relay
  select_next_relay-IsGone true f s s' w h = select_preferred-IsGone f 0 s s' w h
  select_next_relay-IsGone false f s s' w h = select_any-IsGone f s s' w h
