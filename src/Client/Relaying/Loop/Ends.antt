-- ===== src/Client/Relaying/Loop/Ends.antt =====
-- src/relayclient/RelayClient.ts: the loop of `relayTransaction` ends.
use rif_relay.Base.{Bool, arith, inl, inr, length, none, some, suc, zero, ℕ, ◌<◌, ◌≡◌}
use rif_relay.Base.Dict.{Dict, put}
use rif_relay.Base.Exec.{Error, Exec, Result-cases, ◌>>=◌}
use rif_relay.Client.Relaying.{ClientEnv, TransactionDetails}
use rif_relay.Client.Relaying.Attempt.{failed, relayed}
use rif_relay.Client.Relaying.Loop.{
  Relaying, RelayingResult, on_selection, relay_loop, settle_attempt, try_relay, use_relay,
}
use rif_relay.Client.Selection.{SelectionEnv, relays_left, select_next_relay}
use rif_relay.Client.Selection.Left.{select_next_relay_lt}
use rif_relay.Client.Selection.Stops.{IsSettling}

module _ (env : ClientEnv) (sel : SelectionEnv) (law : IsSettling sel)
    (only_preferred needed : Bool) (fuel : ℕ) where
  -- Two ways to go on from a round agree, if they agree wherever a relay was taken out.
  same_round :
      (again again' : TransactionDetails → Dict Error → Exec Relaying RelayingResult)
      (details : TransactionDetails) (errors : Dict Error) (s : Relaying)
      → ((d : TransactionDetails) (es : Dict Error) (t : Relaying)
          → length (relays_left t.selection) < length (relays_left s.selection)
          → again d es t ≡ again' d es t)
      → (on_selection (select_next_relay sel only_preferred fuel)
            >>= use_relay env needed again details errors)
          s
        ≡ (on_selection (select_next_relay sel only_preferred fuel)
              >>= use_relay env needed again' details errors)
            s
  unfolding use_relay settle_attempt ◌>>=◌
  same_round again again' details errors s same =
      let selected = select_next_relay sel only_preferred fuel s.selection in
      elim (Result-cases selected.0) [
        | inr (x, e) ↦ ground (arith, e)
        | inl (none, e) ↦ ground (arith, e)
        | inl (some w, e) ↦
            let fewer =
              select_next_relay_lt sel law only_preferred fuel s.selection selected.1 w
                (λ i. (e i, selected.1)) in
            let tried = try_relay env needed w details s.session in
            elim (Result-cases tried.0) [
              | inr (x, q) ↦ ground (arith, e, q)
              | inl ((relayed raw, d), q) ↦ ground (arith, e, q)
              | inl ((failed x, d), q) ↦
                  let next : Relaying = record { session = tried.1; selection = selected.1 } in
                  ground (arith, e, q, same d (put w.relay_info.relay_url x errors) next fewer)
            ]
      ]

  -- Where only pinged relays settle, more rounds than relays left are enough: with any two such
  -- numbers the loop gives the same result and the same state.
  pub relay_loop-fuel :
      (f g : ℕ) (details : TransactionDetails) (errors : Dict Error) (s : Relaying)
      → length (relays_left s.selection) < f
      → length (relays_left s.selection) < g
      → relay_loop env sel only_preferred needed fuel f details errors s
        ≡ relay_loop env sel only_preferred needed fuel g details errors s
  unfolding relay_loop
  relay_loop-fuel zero g details errors s hf hg = absurd (omega arith)
  relay_loop-fuel (suc f) zero details errors s hf hg = absurd (omega arith)
  relay_loop-fuel (suc f) (suc g) details errors s hf hg =
      same_round (relay_loop env sel only_preferred needed fuel f)
        (relay_loop env sel only_preferred needed fuel g) details errors s
        (λ d es t shorter. relay_loop-fuel f g d es t (omega arith) (omega arith))
