-- ===== src/Client/Selection/Stops.antt =====
-- src/relayclient/RelaySelectionManager.ts: the loop over all relays ends, and when it gives up.
use rif_relay.Base.{
  All, All-at, Bool-cases, List, List-cases, Mem-append_left, Mem-append_right, Mem-take, Memᴰ,
  Option, Option-cases, [], arith, false, flatten, flatten-map-filter, if◌then◌else◌, inl, inr,
  length, length-filter-lt, none, refl, some, subst, suc, sym, take, text_eq_refl, zero, ℕ, ◌<◌,
  ◌==◌, ◌∷◌, ◌≡◌, ◌≤◌, ◌⊎◌,
}
use rif_relay.Base.Dict.{Dict, get-put, put}
use rif_relay.Base.Exec.{>>=-eq-ok, Error, Exec, Result-cases, ok, ◌>>=◌}
use rif_relay.Client.Known.{RelayInfo}
use rif_relay.Client.Selection.{
  RaceResult, SelectionEnv, SelectionState, Winner, get_relay_address_ping, handle_race_results,
  is_left, next_relay_internal, next_slice, or_again, race, race_to_success, relays_left,
  resolve_winner, select_any, settled, unsettled,
}

next_slice-nil :
    (size : ℕ) (lists : List (List RelayInfo))
    → 1 ≤ size
    → next_slice size lists ≡ []
    → flatten lists ≡ []
unfolding next_slice
next_slice-nil size [] h e = refl
next_slice-nil zero (l ∷ ls) h e = absurd (omega arith)
next_slice-nil (suc size) ([] ∷ ls) h e = next_slice-nil (suc size) ls h e
next_slice-nil (suc size) ((x ∷ xs) ∷ ls) h e = absurd (ground arith)

pub RaceResult-cases :
    (r : RaceResult)
    → ((errors : Dict Error) × (r ≡ settled none errors))
      ⊎ ((r ≡ unsettled) ⊎ ((w : Winner) × (errors : Dict Error) × (r ≡ settled (some w) errors)))
RaceResult-cases (settled none errors) = inl (errors, refl)
RaceResult-cases (settled (some w) errors) = inr (inr (w, errors, refl))
RaceResult-cases unsettled = inr (inl refl)

-- Two ways to go on agree after a round if they agree where the round returns no winner.
again_same :
    (m again again' : Exec SelectionState (Option Winner)) (s : SelectionState)
    → ((s' : SelectionState) → m s ≡ (ok none, s') → again s' ≡ again' s')
    → (m >>= or_again again) s ≡ (m >>= or_again again') s
unfolding or_again ◌>>=◌
again_same m again again' s same = elim (Result-cases (m s).0) [
  | inr (x, e) ↦ ground (arith, e)
  | inl (none, e) ↦ ground (arith, e, same (m s).1 (λ i. (e i, (m s).1)))
  | inl (some w, e) ↦ ground (arith, e)
]

-- The relays whose pings settle are relays that were pinged.
pub record IsSettling (env : SelectionEnv) : Type 0 where
  pub only_pinged :
      (relays : List RelayInfo) (time : ℕ) → All (λ r. Memᴰ r relays) (env.settle_order relays time)

next_slice-Mem :
    {x : RelayInfo} (size : ℕ) (lists : List (List RelayInfo))
    → Memᴰ x (next_slice size lists)
    → Memᴰ x (flatten lists)
unfolding next_slice
next_slice-Mem size [] m = m
next_slice-Mem {x} size (l ∷ ls) m = elim (Bool-cases (length (take size l) == 0)) [
  | inl e ↦ Mem-append_right l (flatten ls) (
      next_slice-Mem size ls
        (subst (λ b. Memᴰ x (if b then next_slice size ls else take size l)) e m))
  | inr e ↦
      Mem-append_left l (flatten ls)
        (Mem-take size l (subst (λ b. Memᴰ x (if b then next_slice size ls else take size l)) e m))
]

module _ (env : SelectionEnv) where
  -- A race without a winner ends with the error of a relay that settled.
  race-none :
      (size : ℕ) (order : List RelayInfo) (errors errors' : Dict Error) (time : ℕ)
      → race env size order errors time ≡ settled none errors'
      → (r : RelayInfo) × Memᴰ r order × (is_left none errors' r ≡ false)
  unfolding race is_left
  race-none size [] errors errors' time h = absurd (ground arith)
  race-none size (r ∷ rs) errors errors' time h =
      elim (Result-cases (get_relay_address_ping env r time)) [
        | inl (w, e) ↦ absurd (ground (arith, e))
        | inr (x, e) ↦ elim (Bool-cases (length (put r.relay_url x errors) == size)) [
          | inl full ↦ (
            r,
            Memᴰ.head refl,
            ground (
              arith,
              e,
              full,
              get-put r.relay_url r.relay_url x errors,
              text_eq_refl r.relay_url,
            ),
          )
          | inr more ↦
              let (r', m, left) =
                race-none size rs (put r.relay_url x errors) errors' time
                  (ground (arith, e, more)) in
              (r', Memᴰ.tail m, left)
        ]
      ]

  -- With a positive slice size a search that returns no relay has tried them all: none is left.
  pub select_any-none :
      (f : ℕ) (s s' : SelectionState)
      → 1 ≤ env.slice_size
      → select_any env f s ≡ (ok none, s')
      → relays_left s' ≡ []
  unfolding select_any or_again relays_left
  select_any-none zero s s' h e = absurd (ground arith)
  select_any-none (suc f) s s' h e =
      elim (List-cases (next_slice env.slice_size s.remaining_relays)) [
        | inl p ↦ ground (arith, p, next_slice-nil env.slice_size s.remaining_relays h p)
        | inr (r, rs, p) ↦
            let m = next_relay_internal env (r ∷ rs) in
            let again = or_again (select_any env f) in
            let whole : (m >>= again) s ≡ (ok none, s') = ground (arith, p) in
            let (a, q, k) = >>=-eq-ok m again s whole in
            elim (Option-cases a) [
              | inl z ↦ select_any-none f (m s).1 s' h (ground (arith, k, z))
              | inr (w, z) ↦ absurd (ground (arith, k, z))
            ]
      ]

  -- A round that returns no winner ended a race without one.
  not_none :
      (relays : List RelayInfo) (s s' : SelectionState)
      → (race_to_success env relays s.time ≡ unsettled)
        ⊎ ((w : Winner) × (errors : Dict Error) × (race_to_success env relays s.time
              ≡ settled (some w) errors))
      → ¬ (next_relay_internal env relays s ≡ (ok none, s'))
  unfolding next_relay_internal handle_race_results resolve_winner ◌>>=◌
  not_none relays s s' (inl e) h = absurd (ground (arith, e))
  not_none relays s s' (inr (w, errors, e)) h = absurd (ground (arith, e))

  module _ (law : IsSettling env) where
    pub in_slice :
        {r : RelayInfo} {rs : List RelayInfo} (s : SelectionState)
        → next_slice env.slice_size s.remaining_relays ≡ r ∷ rs
        → (x : RelayInfo) → Memᴰ x (r ∷ rs)
        → Memᴰ x (relays_left s)
    unfolding relays_left
    in_slice s e x m = next_slice-Mem env.slice_size s.remaining_relays (subst (Memᴰ x) (sym e) m)

    failed_round :
        (relays : List RelayInfo) (s s' : SelectionState)
        → ((x : RelayInfo) → Memᴰ x relays → Memᴰ x (relays_left s))
        → next_relay_internal env relays s ≡ (ok none, s')
        → length (relays_left s') < length (relays_left s)
    unfolding next_relay_internal race_to_success handle_race_results relays_left ◌>>=◌
    failed_round relays s s' sub h = elim (RaceResult-cases (race_to_success env relays s.time)) [
      | inl (errors, e) ↦
          let (r, m, dropped) =
            race-none (length relays) (env.settle_order relays s.time) [] errors s.time e in
          let here = sub r (All-at _ _ m (law.only_pinged relays s.time)) in
          ground (
            arith,
            e,
            flatten-map-filter (is_left none errors) s.remaining_relays,
            length-filter-lt (is_left none errors) (relays_left s) here dropped,
          )
      | inr no_errors ↦ absurd (not_none relays s s' no_errors h)
    ]

    -- Where only pinged relays settle, more fuel than relays left is enough: with any two such
    -- amounts the loop over all relays gives the same result and the same state.
    pub select_any-fuel :
        (f g : ℕ) (s : SelectionState)
        → length (relays_left s) < f
        → length (relays_left s) < g
        → select_any env f s ≡ select_any env g s
    unfolding select_any
    select_any-fuel zero g s hf hg = absurd (omega arith)
    select_any-fuel (suc f) zero s hf hg = absurd (omega arith)
    select_any-fuel (suc f) (suc g) s hf hg =
        elim (List-cases (next_slice env.slice_size s.remaining_relays)) [
          | inl e ↦ ground (arith, e)
          | inr (r, rs, e) ↦ ground (
            arith,
            e,
            again_same (next_relay_internal env (r ∷ rs)) (select_any env f) (select_any env g) s
                (λ s' p.
                  let shorter = failed_round (r ∷ rs) s s' (in_slice s e) p in
                  select_any-fuel f g s' (omega arith) (omega arith)),
          )
        ]
