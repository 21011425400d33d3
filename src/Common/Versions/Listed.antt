-- ===== src/Common/Versions/Listed.antt =====
-- src/common/VersionRegistry.ts: what getAllVersions lists of the events.
use mathlib.Core.List.{reverse-cons}
use rif_relay.Base.{
  All, All-append, Bool, Bool-cases, List, Text, [], any, ap, arith, false, find, inl, inr, is_some,
  refl, reverse, some, subst, sym, text_eq, text_eq_iff, true, ℕ, ◌++◌, ◌||◌, ◌∷◌, ◌≡◌,
}
use rif_relay.Base.Dict.{get, get-put, put}
use rif_relay.Common.Versions.{
  VersionEvent, VersionInfo, added, cancel_reasons, version_added, version_canceled,
}

-- The first element that passes a test, and those before it that do not.
pub find-split :
    (p : VersionInfo → Bool) (vs : List VersionInfo) (v : VersionInfo)
    → find p vs ≡ some v
    → (before : List VersionInfo) × (after : List VersionInfo) × (vs ≡ before ++ v ∷ after)
      × (p v ≡ true)
      × All (λ u. p u ≡ false) before
find-split p [] v h = absurd (ground (arith, h))
find-split p (u ∷ us) v h = elim (Bool-cases (p u)) [
  | inl e ↦
      let same : u ≡ v = ground (arith, h, e) in
      ([], us, ap (λ x. x ∷ us) same, subst (λ x. p x ≡ true) same e, tt)
  | inr e ↦
      let (before, after, q, pv, none_before) = find-split p us v (ground (arith, h, e)) in
      (u ∷ before, after, ap (λ x. u ∷ x) q, pv, (e, none_before))
]

abbrev pub adds : Text → VersionEvent → Bool
adds x (version_added v y t) = text_eq v x
adds x (version_canceled v r) = false

abbrev pub cancels : Text → VersionEvent → Bool
cancels x (version_added v y t) = false
cancels x (version_canceled v r) = text_eq v x

abbrev pub lists_name : Text → List Text → Bool
lists_name x found = any (λ w. text_eq w x) found

pub All-reverse : {A : Type 0} (P : A → Type 0) (xs : List A) → All P xs → All P (reverse xs)
All-reverse P [] h = tt
All-reverse P (x ∷ xs) (h, hs) =
    subst (All P) (sym (reverse-cons x xs))
      (All-append P (reverse xs) (x ∷ []) (All-reverse P xs hs) (h, tt))

-- A version has a reason exactly where it is canceled, in any order.
pub get-cancel_reasons :
    (x : Text) (es : List VersionEvent) (reasons : List (Text × Text))
    → is_some (get x (cancel_reasons es reasons)) ≡ (any (cancels x) es || is_some (get x reasons))
unfolding cancel_reasons
get-cancel_reasons x [] reasons = refl
get-cancel_reasons x (version_added v y t ∷ es) reasons = get-cancel_reasons x es reasons
get-cancel_reasons x (version_canceled v r ∷ es) reasons =
    ground (arith, get-cancel_reasons x es (put v r reasons), get-put v x r reasons)

-- Where the events add a version that is listed, and what is listed after it.
pub record IsAt (reasons : List (Text × Text)) (es : List VersionEvent) (found : List Text)
    (v : VersionInfo) (later : List VersionInfo) : Type 0 where
  pub before : List VersionEvent
  pub after : List VersionEvent
  pub found' : List Text
  pub there : es ≡ before ++ version_added v.version v.value v.time ∷ after
  pub fresh : lists_name v.version found ≡ false
  pub is_first : any (adds v.version) before ≡ false
  pub reason : v.cancel_reason ≡ get v.version reasons
  pub rest : later ≡ added reasons after found'
  pub seen :
      (x : Text)
      → lists_name x found' ≡ (lists_name x found || (any (adds x) before || text_eq v.version x))

module _ (reasons : List (Text × Text)) where
  IsAt-repeated :
      (x y : Text) (t : ℕ) (es : List VersionEvent) (found : List Text) (v : VersionInfo)
      (later : List VersionInfo)
      → lists_name x found ≡ true
      → IsAt reasons es found v later
      → IsAt reasons (version_added x y t ∷ es) found v later
  IsAt-repeated x y t es found v later e q = record {
    before = version_added x y t ∷ q.before;
    after = q.after;
    found' = q.found';
    there = ap (λ l. version_added x y t ∷ l) q.there;
    fresh = q.fresh;
    is_first = ground (arith, e, q.fresh, q.is_first, text_eq_iff x v.version);
    reason = q.reason;
    rest = q.rest;
    seen = λ j. ground (arith, e, q.seen j, text_eq_iff x j);
  }

  IsAt-new :
      (x y : Text) (t : ℕ) (es : List VersionEvent) (found : List Text) (v : VersionInfo)
      (later : List VersionInfo)
      → IsAt reasons es (x ∷ found) v later
      → IsAt reasons (version_added x y t ∷ es) found v later
  IsAt-new x y t es found v later q = record {
    before = version_added x y t ∷ q.before;
    after = q.after;
    found' = q.found';
    there = ap (λ l. version_added x y t ∷ l) q.there;
    fresh = ground (arith, q.fresh);
    is_first = ground (arith, q.fresh, q.is_first);
    reason = q.reason;
    rest = q.rest;
    seen = λ j. ground (arith, q.seen j);
  }

  IsAt-canceled :
      (x r : Text) (es : List VersionEvent) (found : List Text) (v : VersionInfo)
      (later : List VersionInfo)
      → IsAt reasons es found v later
      → IsAt reasons (version_canceled x r ∷ es) found v later
  IsAt-canceled x r es found v later q = record {
    before = version_canceled x r ∷ q.before;
    after = q.after;
    found' = q.found';
    there = ap (λ l. version_canceled x r ∷ l) q.there;
    fresh = q.fresh;
    is_first = ground (arith, q.is_first);
    reason = q.reason;
    rest = q.rest;
    seen = λ j. ground (arith, q.seen j);
  }

  IsAt-here :
      (x y : Text) (t : ℕ) (es : List VersionEvent) (found : List Text) (later : List VersionInfo)
      → lists_name x found ≡ false
      → later ≡ added reasons es (x ∷ found)
      → IsAt reasons
          (version_added x y t ∷ es)
          found
          (record { value = y; version = x; time = t; cancel_reason = get x reasons })
          later
  IsAt-here x y t es found later e same = record {
    before = [];
    after = es;
    found' = x ∷ found;
    there = refl;
    fresh = e;
    is_first = refl;
    reason = refl;
    rest = same;
    seen = λ j. ground arith;
  }

  pub added-IsAt :
      (es : List VersionEvent) (found : List Text) (earlier later : List VersionInfo)
      (v : VersionInfo)
      → added reasons es found ≡ earlier ++ v ∷ later
      → IsAt reasons es found v later
  unfolding added
  added-IsAt [] found [] later v h = absurd (ground (arith, h))
  added-IsAt [] found (u ∷ us) later v h = absurd (ground (arith, h))
  added-IsAt (version_canceled c r ∷ es) found earlier later v h =
      IsAt-canceled c r es found v later (added-IsAt es found earlier later v h)
  added-IsAt (version_added x y t ∷ es) found [] later v h =
      elim (Bool-cases (lists_name x found)) [
        | inl e ↦
            IsAt-repeated x y t es found v later e
              (added-IsAt es found [] later v (ground (arith, e, h)))
        | inr e ↦
            let same : record { value = y; version = x; time = t; cancel_reason = get x reasons }
                ≡ v =
              ground (arith, e, h) in
            subst (λ w. IsAt reasons (version_added x y t ∷ es) found w later) same
              (IsAt-here x y t es found later e (ground (arith, e, h)))
      ]
  added-IsAt (version_added x y t ∷ es) found (u ∷ us) later v h =
      elim (Bool-cases (lists_name x found)) [
        | inl e ↦
            IsAt-repeated x y t es found v later e
              (added-IsAt es found (u ∷ us) later v (ground (arith, e, h)))
        | inr e ↦
            IsAt-new x y t es found v later
              (added-IsAt es (x ∷ found) us later v (ground (arith, e, h)))
      ]

  -- What holds of all that is listed holds of a version where it is first added.
  pub added-All :
      (P : VersionInfo → Type 0) (before after : List VersionEvent) (x y : Text) (t : ℕ)
      (found : List Text)
      → All P (added reasons (before ++ version_added x y t ∷ after) found)
      → lists_name x found ≡ false
      → any (adds x) before ≡ false
      → P (record { value = y; version = x; time = t; cancel_reason = get x reasons })
  unfolding added
  added-All P [] after x y t found h fresh first = (rw fresh at h).0
  added-All P (version_canceled c r ∷ es) after x y t found h fresh first =
      added-All P es after x y t found h fresh (ground (arith, first))
  added-All P (version_added a b c ∷ es) after x y t found h fresh first =
      elim (Bool-cases (lists_name a found)) [
        | inl e ↦ added-All P es after x y t found (rw e at h) fresh (ground (arith, first))
        | inr e ↦
            added-All P es after x y t (a ∷ found) ((rw e at h).1) (ground (arith, fresh, first))
              (ground (arith, first))
      ]
