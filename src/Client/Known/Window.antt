-- ===== src/Client/Known/Window.antt =====
-- src/relayclient/KnownRelaysManager.ts: the loop of `getPastEventsForHub` ends.
use rif_relay.Base.{Bool-cases, arith, inl, inr, leb, refl, suc, ℕ, ◌*◌, ◌<◌, ◌≡◌, ◌≤◌}
use rif_relay.Client.Known.{KnownEnv, KnownState, fetch_parts, get_past_events_for_hub, split_range}

module _ (env : KnownEnv) where
  one_round :
      (f g from_block to_block : ℕ) (s : KnownState)
      → (s.relay_lookup_window_parts < 16
          → (t : KnownState) → t.relay_lookup_window_parts ≡ s.relay_lookup_window_parts * 4
          → get_past_events_for_hub env f from_block to_block t
            ≡ get_past_events_for_hub env g from_block to_block t)
      → get_past_events_for_hub env (suc f) from_block to_block s
        ≡ get_past_events_for_hub env (suc g) from_block to_block s
  unfolding get_past_events_for_hub
  one_round f g from_block to_block s same =
      let parts = s.relay_lookup_window_parts in
      let next : KnownState = record (fetch_parts env (split_range from_block to_block parts) s).1 {
        relay_lookup_window_parts = parts * 4;
      } in
      elim (Bool-cases (leb 16 parts)) [
        | inl h ↦ ground (arith, h)
        | inr h ↦ ground (arith, h, same (ground (arith, h)) next refl)
      ]

  rounds_16 :
      (f g from_block to_block : ℕ) (s : KnownState)
      → 16 ≤ s.relay_lookup_window_parts
      → get_past_events_for_hub env (suc f) from_block to_block s
        ≡ get_past_events_for_hub env (suc g) from_block to_block s
  rounds_16 f g from_block to_block s h =
      one_round f g from_block to_block s (λ lt. absurd (omega arith))

  rounds_4 :
      (f g from_block to_block : ℕ) (s : KnownState)
      → 4 ≤ s.relay_lookup_window_parts
      → get_past_events_for_hub env (suc (suc f)) from_block to_block s
        ≡ get_past_events_for_hub env (suc (suc g)) from_block to_block s
  rounds_4 f g from_block to_block s h =
      one_round (suc f) (suc g) from_block to_block s
        (λ _ t e. rounds_16 f g from_block to_block t (omega arith))

  -- From a window of at least one part, three rounds are enough: with more, the loop gives the
  -- same result and the same state.
  pub get_past_events_for_hub-fuel :
      (fuel from_block to_block : ℕ) (s : KnownState)
      → 1 ≤ s.relay_lookup_window_parts
      → get_past_events_for_hub env (suc (suc (suc fuel))) from_block to_block s
        ≡ get_past_events_for_hub env 3 from_block to_block s
  get_past_events_for_hub-fuel fuel from_block to_block s h =
      one_round (suc (suc fuel)) 2 from_block to_block s
        (λ _ t e. rounds_4 fuel 0 from_block to_block t (omega arith))
