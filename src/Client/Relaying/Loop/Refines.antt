-- ===== src/Client/Relaying/Loop/Refines.antt =====
-- src/relayclient/RelayClient.ts: `relayTransaction` as a client sees it: relays are tried one after
-- the other, each at most once, until one relays.
use rif_relay.Base.{
  All, Bool, List, Memᴰ, Option, Text, [], ap, append-nil, append_assoc, false, inl, inr, map, none,
  refl, some, subst, suc, sym, text_eq, zero, ℕ, ◌++◌, ◌∙◌, ◌∷◌, ◌≡◌,
}
use rif_relay.Base.Dict.{Dict, put}
use rif_relay.Base.Exec.{Error, Exec, Result, Result-cases, err, ok, out_of_fuel, ◌>>=◌}
use rif_relay.Client.Discovery.Gap.{rounds}
use rif_relay.Client.Known.{RelayInfo}
use rif_relay.Client.Relaying.{ClientEnv, TransactionDetails}
use rif_relay.Client.Relaying.Attempt.{failed, relayed}
use rif_relay.Client.Relaying.Loop.{
  Relaying, RelayingResult, finish_relaying, on_selection, relay_loop, settle_attempt, try_relay,
  use_relay,
}
use rif_relay.Client.Relaying.Loop.Quiet.{tried_urls}
use rif_relay.Client.Relaying.Loop.Traces.{tried_urls-try_relay}
use rif_relay.Client.Selection.{
  SelectionEnv, SelectionState, Winner, relays_left, select_next_relay,
}
use rif_relay.Client.Selection.Left.{select_next_relay-IsLeft, select_next_relay-Mem}
use rif_relay.Client.Selection.Order.{select_next_relay-IsGone}
use rif_relay.Client.Selection.Stops.{IsSettling}

-- What the tries of a transaction may be: the urls that are left and the errors so far, the urls that
-- are tried in order, and what comes of it, a transaction with the errors of those that failed.
pub data Tries
    : List Text → Dict Error → List Text → Result (Option Text × Dict Error) → Type 0 where
  thrown : {left : List Text} {failures : Dict Error} (e : Error) → Tries left failures [] (err e)
  nobody : {left : List Text} {failures : Dict Error} → Tries left failures [] (ok (none, failures))
  thrown_at :
      {left : List Text} {failures : Dict Error} (url : Text) (e : Error)
      → Memᴰ url left
      → Tries left failures (url ∷ []) (err e)
  relayed_by :
      {left : List Text} {failures : Dict Error} (url raw : Text)
      → Memᴰ url left
      → Tries left failures (url ∷ []) (ok (some raw, failures))
  failed_at :
      {left : List Text} {failures : Dict Error} (url : Text) (e : Error) (left' us : List Text)
      (r : Result (Option Text × Dict Error))
      → Memᴰ url left
      → All (λ v. Memᴰ v left × (text_eq v url ≡ false)) left'
      → Tries left' (put url e failures) us r
      → Tries left failures (url ∷ us) r

-- The transaction and the errors by relay.
abbrev pub outcome_of : Result RelayingResult → Result (Option Text × Dict Error)
outcome_of (err e) = err e
outcome_of (ok r) = ok (r.transaction, r.relaying_errors)

abbrev pub urls_left : SelectionState → List Text
urls_left s = map (λ r. r.relay_url) (relays_left s)

Mem-map_url :
    {r : RelayInfo} (rs : List RelayInfo) → Memᴰ r rs → Memᴰ r.relay_url (map (λ q. q.relay_url) rs)
Mem-map_url [] m = elim m [ ]
Mem-map_url (q ∷ qs) (Memᴰ.head e) = Memᴰ.head (ap (λ x. x.relay_url) e)
Mem-map_url (q ∷ qs) (Memᴰ.tail m) = Memᴰ.tail (Mem-map_url qs m)

urls_All :
    (left : List Text) (url : Text) (rs : List RelayInfo)
    → ((r : RelayInfo) → Memᴰ r rs → Memᴰ r.relay_url left)
    → All (λ r. text_eq r.relay_url url ≡ false) rs
    → All (λ v. Memᴰ v left × (text_eq v url ≡ false)) (map (λ r. r.relay_url) rs)
urls_All left url [] sub h = tt
urls_All left url (r ∷ rs) sub h =
    ((sub r (Memᴰ.head refl), h.0), urls_All left url rs (λ q m. sub q (Memᴰ.tail m)) h.1)

-- What the tries from a state may be, with their result.
abbrev pub Refined : Relaying → Dict Error → Result RelayingResult × Relaying → Type 0
Refined s errors result =
    (us : List Text) × (tried_urls result.1.session.events ≡ tried_urls s.session.events ++ us)
    × Tries (urls_left s.selection) errors us (outcome_of result.0)

module _ (env : ClientEnv) (sel : SelectionEnv) (law : IsSettling sel)
    (only_preferred needed : Bool) (fuel : ℕ) where
  -- The winner's url was left, and what is left afterwards was left before, less that url.
  taken_out :
      (s s' : SelectionState) (w : Winner)
      → select_next_relay sel only_preferred fuel s ≡ (ok (some w), s')
      → Memᴰ w.relay_info.relay_url (urls_left s)
        × All
            (λ v. Memᴰ v (urls_left s) × (text_eq v w.relay_info.relay_url ≡ false))
            (urls_left s')
  taken_out s s' w h =
      let (r, m, same) = select_next_relay-IsLeft sel law only_preferred fuel s s' w h in
      let after : (select_next_relay sel only_preferred fuel s).1 ≡ s' = ap (λ q. q.1) h in
      (
        subst (λ u. Memᴰ u (urls_left s)) same (Mem-map_url (relays_left s) m),
        urls_All (urls_left s) w.relay_info.relay_url (relays_left s')
            (λ q n. Mem-map_url (relays_left s) (
              select_next_relay-Mem sel law only_preferred fuel s q
                (subst (λ t. Memᴰ q (relays_left t)) (sym after) n)))
            (select_next_relay-IsGone sel only_preferred fuel s s' w h),
      )

  Refined-round :
      (again : TransactionDetails → Dict Error → Exec Relaying RelayingResult)
      (details : TransactionDetails) (errors : Dict Error) (s : Relaying)
      → ((d : TransactionDetails) (es : Dict Error) (t : Relaying) → Refined t es (again d es t))
      → Refined s errors (
          (on_selection (select_next_relay sel only_preferred fuel)
              >>= use_relay env needed again details errors)
            s)
  unfolding use_relay settle_attempt finish_relaying ◌>>=◌
  Refined-round again details errors s later =
      let selected = select_next_relay sel only_preferred fuel s.selection in
      elim (Result-cases selected.0) [
        | inr (x, e) ↦ rw e ([], sym (append-nil _), thrown x)
        | inl (none, e) ↦ rw e ([], sym (append-nil _), nobody)
        | inl (some w, e) ↦
            let url = w.relay_info.relay_url in
            let (there, fewer) = taken_out s.selection selected.1 w (λ i. (e i, selected.1)) in
            let tried = try_relay env needed w details s.session in
            let said = tried_urls-try_relay env needed w details s.session in
            elim (Result-cases tried.0) [
              | inr (x, q) ↦ rw (e, q) (url ∷ [], said, thrown_at url x there)
              | inl ((relayed raw, d), q) ↦ rw (e, q) (url ∷ [], said, relayed_by url raw there)
              | inl ((failed x, d), q) ↦
                  let next : Relaying = record { session = tried.1; selection = selected.1 } in
                  let (us, told, rest) = later d (put url x errors) next in
                  rw (e, q)
                    (
                      url ∷ us,
                      told
                          ∙ ap (λ ts. ts ++ us) said
                          ∙ append_assoc (tried_urls s.session.events) (url ∷ []) us,
                      failed_at url x (urls_left selected.1) us _ there fewer rest,
                    )
            ]
      ]

  -- The loop refines the tries of relays one after the other: each url tried is among those left and
  -- then left no more, the tries end with the first relay that returns a transaction, the errors
  -- returned are the given ones with those of the relays that failed, and the events that are added
  -- name the urls tried, in order.
  pub relay_loop-Tries :
      (rounds : ℕ) (details : TransactionDetails) (errors : Dict Error) (s : Relaying)
      → Refined s errors (relay_loop env sel only_preferred needed fuel rounds details errors s)
  unfolding relay_loop
  relay_loop-Tries zero details errors s = ([], sym (append-nil _), thrown out_of_fuel)
  relay_loop-Tries (suc rounds) details errors s =
      Refined-round (relay_loop env sel only_preferred needed fuel rounds) details errors s
        (relay_loop-Tries rounds)
