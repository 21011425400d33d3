-- ===== src/Client/Selection/Race.antt =====
-- src/relayclient/RelaySelectionManager.ts: when a race resolves.
use rif_relay.Base.{
  All, Bool-cases, List, Text, [], arith, false, inl, inr, length, none, refl, text_eq, text_eq_iff,
  ℕ, ◌+◌, ◌==◌, ◌∷◌, ◌≡◌, ◌≤◌,
}
use rif_relay.Base.Dict.{Dict, get, get-put, put}
use rif_relay.Base.Exec.{Error, Result-cases}
use rif_relay.Client.Known.{RelayInfo}
use rif_relay.Client.Selection.{
  SelectionEnv, get_relay_address_ping, race, race_to_success, unsettled,
}

-- No url stands twice.
abbrev pub AreDistinct : List RelayInfo → Type 0
AreDistinct [] = Unit
AreDistinct (r ∷ rs) = All (λ q. text_eq q.relay_url r.relay_url ≡ false) rs × AreDistinct rs

length-put :
    (k : Text) (e : Error) (d : Dict Error) → get k d ≡ none → length (put k e d) ≡ length d + 1
unfolding get put
length-put k e [] h = omega arith
length-put k e ((j, x) ∷ d) h = ground (arith, length-put k e d)

-- None of these relays has failed so far.
abbrev AreUntried : Dict Error → List RelayInfo → Type 0
AreUntried errors rs = All (λ r. get r.relay_url errors ≡ none) rs

untried-put :
    (r q : RelayInfo) (e : Error) (errors : Dict Error)
    → get q.relay_url errors ≡ none
    → text_eq q.relay_url r.relay_url ≡ false
    → get q.relay_url (put r.relay_url e errors) ≡ none
untried-put r q e errors h d = ground (
  arith,
  get-put r.relay_url q.relay_url e errors,
  text_eq_iff r.relay_url q.relay_url,
  text_eq_iff q.relay_url r.relay_url,
)

AreUntried-put :
    (r : RelayInfo) (e : Error) (errors : Dict Error) (rs : List RelayInfo)
    → AreUntried errors rs
    → All (λ q. text_eq q.relay_url r.relay_url ≡ false) rs
    → AreUntried (put r.relay_url e errors) rs
AreUntried-put r e errors [] u d = tt
AreUntried-put r e errors (q ∷ qs) u d =
    (untried-put r q e errors u.0 d.0, AreUntried-put r e errors qs u.1 d.1)

module _ (env : SelectionEnv) where
  race-resolves :
      (size : ℕ) (order : List RelayInfo) (errors : Dict Error) (time : ℕ)
      → 1 ≤ length order
      → length errors + length order ≡ size
      → AreDistinct order
      → AreUntried errors order
      → ¬ (race env size order errors time ≡ unsettled)
  unfolding race
  race-resolves size [] errors time one n d u h = absurd (omega arith)
  race-resolves size (r ∷ rs) errors time one n d u h =
      elim (Result-cases (get_relay_address_ping env r time)) [
        | inl (w, e) ↦ absurd (ground (arith, e))
        | inr (x, e) ↦
            let grown = length-put r.relay_url x errors u.0 in
            elim (Bool-cases (length (put r.relay_url x errors) == size)) [
              | inl full ↦ absurd (ground (arith, e, full))
              | inr more ↦
                  let some_left : 1 ≤ length rs = ground (arith, more, grown, n) in
                  race-resolves size rs (put r.relay_url x errors) time some_left
                    (ground (arith, grown, n)) d.1 (AreUntried-put r x errors rs u.1 d.0)
                    (ground (arith, e, more))
            ]
      ]

  -- A race between relays of distinct urls always resolves, if all their pings settle, whether they
  -- answer or fail.
  pub race_to_success-resolves :
      (relays : List RelayInfo) (time : ℕ)
      → 1 ≤ length relays
      → length (env.settle_order relays time) ≡ length relays
      → AreDistinct (env.settle_order relays time)
      → ¬ (race_to_success env relays time ≡ unsettled)
  unfolding race_to_success get
  race_to_success-resolves relays time one all d =
      race-resolves (length relays) (env.settle_order relays time) [] time (ground arith)
        (ground arith) d (untried (env.settle_order relays time))
    where
      untried : (rs : List RelayInfo) → AreUntried [] rs
      untried [] = tt
      untried (r ∷ rs) = (refl, untried rs)
