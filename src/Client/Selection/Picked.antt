-- ===== src/Client/Selection/Picked.antt =====
-- src/relayclient/RelaySelectionManager.ts: the selection only ever removes relays,
-- and its winners come from the slice that was pinged.
use rif_relay.Base.{
  All-at, Bool, Bool-cases, List, List-cases, Memᴰ, Option, [], ap, arith, false, filter,
  flatten-map-filter, inl, inr, length, none, refl, some, suc, sym, true, zero, ℕ, ◌&&◌, ◌+◌, ◌==◌,
  ◌∙◌, ◌∷◌, ◌≡◌,
}
use rif_relay.Base.Dict.{Dict, put}
use rif_relay.Base.Exec.{Error, Exec, Result-cases, ok, pure, ◌>>=◌}
use rif_relay.Base.Steps.{IsPreorder, Steps, Steps-bind, Steps-pure}
use rif_relay.Client.Known.{RelayInfo, is_info_from_event}
use rif_relay.Client.Selection.{
  SelectionEnv, SelectionState, Winner, get_relay_address_ping, handle_race_results, is_left,
  next_relay_internal, next_slice, or_again, preferred_slice, race, race_to_success, relays_left,
  resolve_winner, select_any, select_next_relay, select_preferred, settled,
}
use rif_relay.Client.Selection.Stops.{IsSettling, RaceResult-cases}

filter-true : (xs : List RelayInfo) → filter (λ _. true) xs ≡ xs
filter-true [] = refl
filter-true (x ∷ xs) = ap (λ ys. x ∷ ys) (filter-true xs)

filter-filter :
    (p q : RelayInfo → Bool) (xs : List RelayInfo)
    → filter q (filter p xs) ≡ filter (λ x. p x && q x) xs
filter-filter p q [] = refl
filter-filter p q (x ∷ xs) = ground (arith, filter-filter p q xs)

-- What is left is a part of what was left, in the same order.
abbrev pub Shrinks : SelectionState → SelectionState → Type 0
Shrinks s t = (p : RelayInfo → Bool) × (relays_left t ≡ filter p (relays_left s))

Shrinks-IsPreorder : IsPreorder Shrinks
Shrinks-IsPreorder = record {
  same = λ s. (λ _. true, sym (filter-true (relays_left s)));
  then_ = λ s t u (p, e) (q, f).
      (λ x. p x && q x, f ∙ ap (filter q) e ∙ filter-filter p q (relays_left s));
}

module _ (env : SelectionEnv) where
  pinged :
      (r : RelayInfo) (time : ℕ) (v : Winner)
      → get_relay_address_ping env r time ≡ ok v
      → v.relay_info ≡ r
  unfolding get_relay_address_ping
  pinged r time v h = ground arith

  -- The winner of a race is one of the relays that settled.
  race-some :
      (size : ℕ) (order : List RelayInfo) (errors errors' : Dict Error) (time : ℕ) (w : Winner)
      → race env size order errors time ≡ settled (some w) errors'
      → Memᴰ w.relay_info order
  unfolding race
  race-some size [] errors errors' time w h = absurd (ground arith)
  race-some size (r ∷ rs) errors errors' time w h =
      elim (Result-cases (get_relay_address_ping env r time)) [
        | inl (v, e) ↦ Memᴰ.head (ground (arith, e, pinged r time v e))
        | inr (x, e) ↦ elim (Bool-cases (length (put r.relay_url x errors) == size)) [
          | inl full ↦ absurd (ground (arith, e, full))
          | inr more ↦ Memᴰ.tail (
              race-some size rs (put r.relay_url x errors) errors' time w (ground (arith, e, more)))
        ]
      ]

  handle_race_results-Shrinks :
      (winner : Option Winner) (errors : Dict Error)
      → Steps Shrinks (handle_race_results winner errors)
  unfolding handle_race_results relays_left
  handle_race_results-Shrinks winner errors = record {
    at = λ s. elim (Bool-cases s.is_initialized) [
      | inr off ↦ rw off (Shrinks-IsPreorder.same s)
      | inl on ↦ (
        is_left winner errors,
        rw on (flatten-map-filter (is_left winner errors) s.remaining_relays),
      )
    ];
  }

  resolve_winner-Shrinks : (w : Winner) → Steps Shrinks (resolve_winner env w)
  unfolding resolve_winner relays_left
  resolve_winner-Shrinks w = record {
    at = λ s. elim (Bool-cases (is_info_from_event w.relay_info)) [
      | inl known ↦ rw known (Shrinks-IsPreorder.same s)
      | inr url ↦ rw url (Shrinks-IsPreorder.same s)
    ];
  }

  pub next_relay_internal-Shrinks :
      (relays : List RelayInfo) → Steps Shrinks (next_relay_internal env relays)
  unfolding next_relay_internal relays_left
  next_relay_internal-Shrinks relays = record {
    at = λ s. elim (RaceResult-cases (race_to_success env relays s.time)) [
      | inl (errors, e) ↦
          rw (e, next_relay_internal)
            ((Steps-bind Shrinks Shrinks-IsPreorder (handle_race_results none errors)
                (λ _. pure none) (handle_race_results-Shrinks none errors)
                (λ _. Steps-pure Shrinks Shrinks-IsPreorder none)).at
              (record s { time = s.time + 1 }))
      | inr (inl e) ↦ rw (e, next_relay_internal) (Shrinks-IsPreorder.same s)
      | inr (inr (w, errors, e)) ↦
          rw (e, next_relay_internal)
            ((Steps-bind Shrinks Shrinks-IsPreorder (handle_race_results (some w) errors)
                (λ _. resolve_winner env w) (handle_race_results-Shrinks (some w) errors)
                (λ _. resolve_winner-Shrinks w)).at
              (record s { time = s.time + 1 }))
    ];
  }

  -- The winner of a round has the url of a relay of its slice.
  pub next_relay_internal-some :
      (relays : List RelayInfo) (s s' : SelectionState) (w : Winner)
      → IsSettling env
      → next_relay_internal env relays s ≡ (ok (some w), s')
      → (r : RelayInfo) × Memᴰ r relays × (r.relay_url ≡ w.relay_info.relay_url)
  unfolding next_relay_internal race_to_success handle_race_results resolve_winner ◌>>=◌
  next_relay_internal-some relays s s' w law h =
      elim (RaceResult-cases (race_to_success env relays s.time)) [
        | inl (errors, e) ↦ absurd (ground (arith, e))
        | inr (inl e) ↦ absurd (ground (arith, e))
        | inr (inr (v, errors, e)) ↦
            let settled_one =
              race-some (length relays) (env.settle_order relays s.time) [] errors s.time v e in
            (
              v.relay_info,
              All-at _ _ settled_one (law.only_pinged relays s.time),
              ground (arith, e),
            )
      ]

  or_again-Shrinks :
      (again : Exec SelectionState (Option Winner))
      → Steps Shrinks again
      → (w : Option Winner) → Steps Shrinks (or_again again w)
  unfolding or_again
  or_again-Shrinks again k none = k
  or_again-Shrinks again k (some w) = Steps-pure Shrinks Shrinks-IsPreorder (some w)

  round-Shrinks :
      (again : Exec SelectionState (Option Winner)) (relays : List RelayInfo)
      → Steps Shrinks again
      → Steps Shrinks (next_relay_internal env relays >>= or_again again)
  round-Shrinks again relays k =
      Steps-bind Shrinks Shrinks-IsPreorder (next_relay_internal env relays) (or_again again)
        (next_relay_internal-Shrinks relays) (or_again-Shrinks again k)

  select_any-Shrinks : (f : ℕ) → Steps Shrinks (select_any env f)
  unfolding select_any relays_left
  select_any-Shrinks zero = record { at = Shrinks-IsPreorder.same }
  select_any-Shrinks (suc f) = record {
    at = λ s. elim (Bool-cases s.is_initialized) [
      | inr off ↦ rw off (Shrinks-IsPreorder.same s)
      | inl on ↦ elim (List-cases (next_slice env.slice_size s.remaining_relays)) [
        | inl e ↦ rw (on, e) (Shrinks-IsPreorder.same s)
        | inr (r, rs, e) ↦
            rw (on, e) ((round-Shrinks (select_any env f) (r ∷ rs) (select_any-Shrinks f)).at s)
      ]
    ];
  }

  select_preferred-Shrinks : (f index : ℕ) → Steps Shrinks (select_preferred env f index)
  unfolding select_preferred relays_left
  select_preferred-Shrinks zero index = record { at = Shrinks-IsPreorder.same }
  select_preferred-Shrinks (suc f) index = record {
    at = λ s.
        let slice = preferred_slice env.slice_size index s.remaining_relays in
        let next = index + length slice in
        elim (Bool-cases s.is_initialized) [
          | inr off ↦ rw off (Shrinks-IsPreorder.same s)
          | inl on ↦ elim (List-cases slice) [
            | inl e ↦ rw (on, e) (Shrinks-IsPreorder.same s)
            | inr (r, rs, e) ↦
                rw (on, e)
                  ((round-Shrinks (select_preferred env f next) (r ∷ rs)
                      (select_preferred-Shrinks f next)).at
                    s)
          ]
        ];
  }

  pub select_next_relay-Shrinks :
      (only_preferred : Bool) (f : ℕ) → Steps Shrinks (select_next_relay env only_preferred f)
  unfolding select_next_relay
  select_next_relay-Shrinks true f = select_preferred-Shrinks f 0
  select_next_relay-Shrinks false f = select_any-Shrinks f
