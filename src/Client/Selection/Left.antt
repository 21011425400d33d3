-- ===== src/Client/Selection/Left.antt =====
-- src/relayclient/RelaySelectionManager.ts: a relay that is returned was left before, and then fewer
-- relays are left.
use rif_relay.Base.{
  All-at, Bool, Bool-cases, List, List-cases, Mem-append_left, Mem-take, Memᴰ, Option, Text, [], ap,
  arith, drop, false, filter, flatten, if◌then◌else◌, inl, inr, length, length-filter-lt, some,
  subst, suc, sym, text_eq, text_eq_iff, true, zero, ℕ, ◌+◌, ◌<◌, ◌∙◌, ◌∷◌, ◌≡◌,
}
use rif_relay.Base.Exec.{Exec, ok, ◌>>=◌}
use rif_relay.Client.Known.{RelayInfo}
use rif_relay.Client.Selection.{
  SelectionEnv, SelectionState, Winner, next_relay_internal, next_slice, or_again, preferred_slice,
  relays_left, select_any, select_next_relay, select_preferred,
}
use rif_relay.Client.Selection.Order.{round-some, select_next_relay-IsGone}
use rif_relay.Client.Selection.Picked.{
  Shrinks, next_relay_internal-Shrinks, next_relay_internal-some, select_next_relay-Shrinks,
}
use rif_relay.Client.Selection.Stops.{IsSettling, in_slice}

Mem-filter {ℓ} :
    {A : Type ℓ} {x : A} (p : A → Bool) (xs : List A) → Memᴰ x (filter p xs) → Memᴰ x xs
Mem-filter p [] m = elim m [ ]
Mem-filter {x} p (y ∷ ys) m = kept (Mem-filter p ys) (p y) m
  where
    kept :
        (Memᴰ x (filter p ys) → Memᴰ x ys)
        → (b : Bool) → Memᴰ x (if b then y ∷ filter p ys else filter p ys)
        → Memᴰ x (y ∷ ys)
    kept rest true (Memᴰ.head e) = Memᴰ.head e
    kept rest true (Memᴰ.tail n) = Memᴰ.tail (rest n)
    kept rest false n = Memᴰ.tail (rest n)

Mem-filter_kept {ℓ} :
    {A : Type ℓ} {x : A} (p : A → Bool) (xs : List A)
    → Memᴰ x xs
    → p x ≡ true
    → Memᴰ x (filter p xs)
Mem-filter_kept p [] m h = elim m [ ]
Mem-filter_kept p (y ∷ ys) (Memᴰ.head e) h = rw (ap p (sym e) ∙ h) (Memᴰ.head e)
Mem-filter_kept {x} p (y ∷ ys) (Memᴰ.tail m) h = kept_or_not (p y) (Mem-filter_kept p ys m h)
  where
    kept_or_not :
        (b : Bool) → Memᴰ x (filter p ys) → Memᴰ x (if b then y ∷ filter p ys else filter p ys)
    kept_or_not true n = Memᴰ.tail n
    kept_or_not false n = n

Mem-drop {ℓ} : {A : Type ℓ} {x : A} (n : ℕ) (xs : List A) → Memᴰ x (drop n xs) → Memᴰ x xs
Mem-drop zero xs m = m
Mem-drop (suc n) [] m = elim m [ ]
Mem-drop (suc n) (y ∷ ys) m = Memᴰ.tail (Mem-drop n ys m)

-- A relay that is left has this url.
abbrev pub IsLeft : Text → SelectionState → Type 0
IsLeft url s = (r : RelayInfo) × Memᴰ r (relays_left s) × (r.relay_url ≡ url)

IsLeft-before : (url : Text) (s t : SelectionState) → Shrinks s t → IsLeft url t → IsLeft url s
IsLeft-before url s t (p, e) (r, m, same) =
    (r, Mem-filter p (relays_left s) (subst (Memᴰ r) e m), same)

preferred-Mem :
    {x : RelayInfo} (size index : ℕ) (lists : List (List RelayInfo))
    → Memᴰ x (preferred_slice size index lists)
    → Memᴰ x (flatten lists)
unfolding preferred_slice
preferred-Mem size index [] m = Mem-drop index [] (Mem-take size (drop index []) m)
preferred-Mem size index (l ∷ ls) m =
    Mem-append_left l (flatten ls) (Mem-drop index l (Mem-take size (drop index l) m))

module _ (env : SelectionEnv) (law : IsSettling env) where
  round-IsLeft :
      (again : Exec SelectionState (Option Winner)) (slice : List RelayInfo) (s s' : SelectionState)
      (w : Winner)
      → ((x : RelayInfo) → Memᴰ x slice → Memᴰ x (relays_left s))
      → ((t : SelectionState) → again t ≡ (ok (some w), s') → IsLeft w.relay_info.relay_url t)
      → (next_relay_internal env slice >>= or_again again) s ≡ (ok (some w), s')
      → IsLeft w.relay_info.relay_url s
  round-IsLeft again slice s s' w sub later h =
      elim (round-some env (next_relay_internal env slice) again s s' w h) [
        | inl now ↦
            let (r, m, same) = next_relay_internal-some env slice s s' w law now in
            (r, sub r m, same)
        | inr next ↦
            IsLeft-before w.relay_info.relay_url s (next_relay_internal env slice s).1
              ((next_relay_internal-Shrinks env slice).at s) (later _ next)
      ]

  select_any-IsLeft :
      (f : ℕ) (s s' : SelectionState) (w : Winner)
      → select_any env f s ≡ (ok (some w), s')
      → IsLeft w.relay_info.relay_url s
  unfolding select_any
  select_any-IsLeft zero s s' w h = absurd (ground arith)
  select_any-IsLeft (suc f) s s' w h =
      elim (List-cases (next_slice env.slice_size s.remaining_relays)) [
        | inl p ↦ absurd (ground (arith, p))
        | inr (r, rs, p) ↦
            round-IsLeft (select_any env f) (r ∷ rs) s s' w (in_slice env law s p)
              (λ t. select_any-IsLeft f t s' w) (ground (arith, p))
      ]

  select_preferred-IsLeft :
      (f index : ℕ) (s s' : SelectionState) (w : Winner)
      → select_preferred env f index s ≡ (ok (some w), s')
      → IsLeft w.relay_info.relay_url s
  unfolding select_preferred relays_left
  select_preferred-IsLeft zero index s s' w h = absurd (ground arith)
  select_preferred-IsLeft (suc f) index s s' w h =
      let slice = preferred_slice env.slice_size index s.remaining_relays in
      let next = index + length slice in
      elim (List-cases slice) [
        | inl p ↦ absurd (ground (arith, p))
        | inr (r, rs, p) ↦
            round-IsLeft (select_preferred env f next) (r ∷ rs) s s' w
              (λ x m.
                preferred-Mem env.slice_size index s.remaining_relays (subst (Memᴰ x) (sym p) m))
              (λ t. select_preferred-IsLeft f next t s' w) (ground (arith, p))
      ]

  -- A relay that is returned, in either mode, has the url of one that was left.
  pub select_next_relay-IsLeft :
      (only_preferred : Bool) (f : ℕ) (s s' : SelectionState) (w : Winner)
      → select_next_relay env only_preferred f s ≡ (ok (some w), s')
      → IsLeft w.relay_info.relay_url s
  unfolding select_next_relay
  select_next_relay-IsLeft true f s s' w h = select_preferred-IsLeft f 0 s s' w h
  select_next_relay-IsLeft false f s s' w h = select_any-IsLeft f s s' w h

  -- There are fewer relays left after one was returned.
  pub select_next_relay_lt :
      (only_preferred : Bool) (f : ℕ) (s s' : SelectionState) (w : Winner)
      → select_next_relay env only_preferred f s ≡ (ok (some w), s')
      → length (relays_left s') < length (relays_left s)
  select_next_relay_lt only f s s' w h =
      let (r, m, same) = select_next_relay-IsLeft only f s s' w h in
      let gone = select_next_relay-IsGone env only f s s' w h in
      let (p, e) = (select_next_relay-Shrinks env only f).at s in
      let left_after : s' ≡ (select_next_relay env only f s).1 = sym (ap (λ q. q.1) h) in
      rw (left_after, e)
        (elim (Bool-cases (p r)) [
          | inr dropped ↦ length-filter-lt p (relays_left s) m dropped
          | inl kept ↦
              let there = Mem-filter_kept p (relays_left s) m kept in
              let other =
                All-at (λ q. text_eq q.relay_url w.relay_info.relay_url ≡ false) (relays_left s')
                  (subst (Memᴰ r) (sym e ∙ ap relays_left (sym left_after)) there) gone in
              absurd (ground (arith, other, text_eq_iff r.relay_url w.relay_info.relay_url))
        ])

  -- What is left after a selection was left before.
  pub select_next_relay-Mem :
      (only_preferred : Bool) (f : ℕ) (s : SelectionState) (r : RelayInfo)
      → Memᴰ r (relays_left (select_next_relay env only_preferred f s).1)
      → Memᴰ r (relays_left s)
  select_next_relay-Mem only f s r m =
      let (p, e) = (select_next_relay-Shrinks env only f).at s in
      Mem-filter p (relays_left s) (subst (Memᴰ r) e m)
