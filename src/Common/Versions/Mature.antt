-- ===== src/Common/Versions/Mature.antt =====
-- src/common/VersionRegistry.ts: which version is returned.
use mathlib.Core.List.{reverse-append, reverse-cons, reverse-reverse}
use rif_relay.Base.{
  All, Bool-cases, List, Option-cases, Text, [], any, any-append, ap, append_assoc, arith, false,
  find, inl, inr, is_some, none, reverse, some, subst, sym, text_eq_iff, true, ℕ, ◌++◌, ◌+◌, ◌<◌,
  ◌∙◌, ◌∷◌, ◌≡◌, ◌≤◌, ◌⊎◌,
}
use rif_relay.Base.Dict.{get}
use rif_relay.Base.Exec.{ok}
use rif_relay.Common.Versions.{
  VersionEvent, VersionInfo, added, cancel_reasons, get_all_versions, get_version, is_mature,
  version_added,
}
use rif_relay.Common.Versions.Listed.{
  All-reverse, IsAt, added-All, added-IsAt, adds, cancels, find-split, get-cancel_reasons,
}

-- The version is first added there and never canceled, it is old enough or asked for, and every
-- version first added after it is canceled, or too young and not asked for.
pub record IsLatestMature (events : List VersionEvent) (delay now : ℕ) (opt_in : Text)
    (v : VersionInfo) : Type 0 where
  pub before : List VersionEvent
  pub after : List VersionEvent
  pub added_there : events ≡ before ++ version_added v.version v.value v.time ∷ after
  pub first_there : any (adds v.version) before ≡ false
  pub is_kept : v.cancel_reason ≡ none
  pub never_canceled : any (cancels v.version) events ≡ false
  pub is_due : (v.time + delay ≤ now) ⊎ (v.version ≡ opt_in)
  pub is_latest :
      (between rest : List VersionEvent) (x y : Text) (t : ℕ)
      → after ≡ between ++ version_added x y t ∷ rest
      → any (adds x) (before ++ version_added v.version v.value v.time ∷ between) ≡ false
      → (any (cancels x) events ≡ true) ⊎ ((now < t + delay) × ¬ (x ≡ opt_in))

module _ (events : List VersionEvent) (delay now : ℕ) (opt_in : Text) where
  abbrev all_reasons : List (Text × Text)
  all_reasons = cancel_reasons events []

  get_all_versions-IsAt :
      (earlier later : List VersionInfo) (v : VersionInfo)
      → get_all_versions events ≡ later ++ v ∷ earlier
      → IsAt all_reasons events [] v (reverse later)
  unfolding get_all_versions
  get_all_versions-IsAt earlier later v h =
      added-IsAt all_reasons events [] (reverse earlier) (reverse later) v (
        sym (reverse-reverse (added all_reasons events []))
        ∙ ap reverse h
        ∙ reverse-append later (v ∷ earlier)
        ∙ ap (λ l. l ++ reverse later) (reverse-cons v earlier)
        ∙ append_assoc (reverse earlier) (v ∷ []) (reverse later))

  unfit-cases :
      (x y : Text) (t : ℕ)
      → is_mature delay now opt_in
          (record { value = y; version = x; time = t; cancel_reason = get x all_reasons })
        ≡ false
      → (any (cancels x) events ≡ true) ⊎ ((now < t + delay) × ¬ (x ≡ opt_in))
  unfolding is_mature get
  unfit-cases x y t h = elim (Bool-cases (any (cancels x) events)) [
    | inl e ↦ inl e
    | inr e ↦
        let kept : is_some (get x all_reasons) ≡ false =
          ground (arith, e, get-cancel_reasons x events []) in
        inr (ground (arith, kept, h), λ same. ground (arith, kept, h, text_eq_iff x opt_in, same))
  ]

  -- The version returned is the latest added that is fit: the events first add it there with its value
  -- and time and never cancel it, it is old enough or asked for, and every version that they first add
  -- after it is canceled, or too young and not asked for.
  pub get_version-IsLatestMature :
      (v : VersionInfo)
      → get_version events delay now opt_in ≡ ok v
      → IsLatestMature events delay now opt_in v
  unfolding get_version is_mature get
  get_version-IsLatestMature v h =
      let fit = is_mature delay now opt_in in
      let chosen : find fit (get_all_versions events) ≡ some v =
        elim (Option-cases (find fit (get_all_versions events))) [
          | inl e ↦ absurd (ground (arith, e, h))
          | inr (u, e) ↦ ground (arith, e, h)
        ] in
      let (later, earlier, q, passes, unfit) = find-split fit (get_all_versions events) v chosen in
      let at = get_all_versions-IsAt earlier later v q in
      record {
        before = at.before;
        after = at.after;
        added_there = at.there;
        first_there = at.is_first;
        is_kept = ground (arith, passes);
        never_canceled = ground (arith, passes, at.reason, get-cancel_reasons v.version events []);
        is_due = ground (arith, passes, text_eq_iff v.version opt_in);
        is_latest = λ between rest x y t e first.
            let apart =
              any-append (adds x) at.before (version_added v.version v.value v.time ∷ between) in
            unfit-cases x y t (
              added-All all_reasons (λ u. fit u ≡ false) between rest x y t at.found'
                (subst (λ l. All (λ u. fit u ≡ false) (added all_reasons l at.found')) e
                  (subst (All (λ u. fit u ≡ false)) at.rest
                    (All-reverse (λ u. fit u ≡ false) later unfit)))
                (ground (arith, at.seen x, apart, first)) (ground (arith, apart, first)));
      }
