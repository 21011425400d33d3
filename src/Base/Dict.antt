-- ===== src/Base/Dict.antt =====
-- A `Map` or `Record` with text keys, as an association list in insertion order.
use mathlib.Core.Bool.{Bool, not}
use mathlib.Core.List.{List, [], ◌∷◌}
use mathlib.Core.Logic.{inl, inr}
use mathlib.Core.Option.{Option, none, some}
use mathlib.Core.Path.{ap, refl, subst, sym, ◌≡◌}
use native.Mathlib.Omega.{arith}
use rif_relay.Base.Lists.{All, filter}
use rif_relay.Base.Strings.{Text, text_eq, text_eq_iff, text_eq_refl}
use rif_relay.Base.Tests.{Bool-cases, if◌then◌else◌}

abbrev pub Dict {ℓ} : Type ℓ → Type ℓ
Dict V = List (Text × V)

module _ {ℓ} {V : Type ℓ} where
  unfoldable pub get : Text → List (Text × V) → Option V
  get k [] = none
  get k ((j, v) ∷ m) = if text_eq j k then some v else get k m

  -- A key that is there keeps its place.
  unfoldable pub put : Text → V → List (Text × V) → List (Text × V)
  put k v [] = (k, v) ∷ []
  put k v ((j, w) ∷ m) = if text_eq j k then (j, v) ∷ m else (j, w) ∷ put k v m

  unfoldable pub delete : Text → List (Text × V) → List (Text × V)
  delete k m = filter (λ e. not (text_eq e.0 k)) m

  -- The first value, or else the second.
  abbrev pub or_get : Option V → Option V → Option V
  or_get none w = w
  or_get (some v) w = some v

  pub get-put :
      (k j : Text) (v : V) (m : List (Text × V))
      → get j (put k v m) ≡ (if text_eq k j then some v else get j m)
  unfolding get put
  get-put k j v [] = refl
  get-put k j v ((i, w) ∷ m) =
      ground
        (arith, text_eq_iff k j, text_eq_iff i k, text_eq_iff i j, text_eq_refl j, get-put k j v m)

  pub get-delete :
      (k j : Text) (m : List (Text × V))
      → get j (delete k m) ≡ (if text_eq k j then none else get j m)
  unfolding get delete
  get-delete k j [] = ground arith
  get-delete k j ((i, w) ∷ m) =
      ground
        (arith, text_eq_iff k j, text_eq_iff i k, text_eq_iff i j, text_eq_refl j, get-delete k j m)

  -- `{ ...m, ...n }`, and `Object.assign({}, m, n)` for a copy of `m`.
  unfoldable pub overlay : List (Text × V) → List (Text × V) → List (Text × V)
  overlay m [] = m
  overlay m ((k, v) ∷ n) = overlay (put k v m) n

  -- An object has each key once.
  unfoldable pub IsDistinct : List (Text × V) → Type ℓ
  IsDistinct [] = Unit
  IsDistinct ((k, v) ∷ m) = (get k m ≡ none) × IsDistinct m

  pub get-overlay :
      (j : Text) (m n : List (Text × V))
      → IsDistinct n
      → get j (overlay m n) ≡ or_get (get j n) (get j m)
  unfolding overlay IsDistinct get
  get-overlay j m [] d = refl
  get-overlay j m ((k, v) ∷ n) (fresh, d) =
      ground (arith, fresh, text_eq_iff k j, get-overlay j (put k v m) n d, get-put k j v m)

  pub put-IsDistinct :
      (k : Text) (v : V) (m : List (Text × V)) → IsDistinct m → IsDistinct (put k v m)
  unfolding put IsDistinct get
  put-IsDistinct k v [] d = (refl, tt)
  put-IsDistinct k v ((i, w) ∷ m) (fresh, d) = ground (
    arith,
    fresh,
    text_eq_iff i k,
    text_eq_iff k i,
    text_eq_refl i,
    get-put k i v m,
    put-IsDistinct k v m d,
  )

  pub overlay-IsDistinct : (m n : List (Text × V)) → IsDistinct m → IsDistinct (overlay m n)
  unfolding overlay
  overlay-IsDistinct m [] d = d
  overlay-IsDistinct m ((k, v) ∷ n) d = overlay-IsDistinct (put k v m) n (put-IsDistinct k v m d)

  pub or_get-none : (v : Option V) → or_get v none ≡ v
  or_get-none none = refl
  or_get-none (some v) = refl

  pub or_get_assoc : (u v w : Option V) → or_get (or_get u v) w ≡ or_get u (or_get v w)
  or_get_assoc none v w = refl
  or_get_assoc (some u) v w = refl

  -- Only the entries whose names pass a test.
  pub get-filter :
      (p : Text → Bool) (k : Text) (m : List (Text × V))
      → get k (filter (λ e. p e.0) m) ≡ (if p k then get k m else none)
  unfolding get
  get-filter p k [] = ground arith
  get-filter p k ((j, v) ∷ m) = elim (Bool-cases (text_eq j k)) [
    | inl e ↦
        let same : p j ≡ p k = ap p ((text_eq_iff j k).0 e) in
        ground (arith, e, same, get-filter p k m)
    | inr e ↦ ground (arith, e, get-filter p k m)
  ]

  pub filter-IsDistinct :
      (p : Text → Bool) (m : List (Text × V)) → IsDistinct m → IsDistinct (filter (λ e. p e.0) m)
  unfolding IsDistinct
  filter-IsDistinct p [] d = tt
  filter-IsDistinct p ((j, v) ∷ m) (fresh, d) = elim (Bool-cases (p j)) [
    | inl e ↦ rw e (ground (arith, get-filter p j m, fresh), filter-IsDistinct p m d)
    | inr e ↦ rw e (filter-IsDistinct p m d)
  ]

module _ {ℓ κ} {V : Type ℓ} (P : Text × V → Type κ) where
  pub All-put : (k : Text) (v : V) (m : List (Text × V)) → P (k, v) → All P m → All P (put k v m)
  unfolding put
  All-put k v [] p a = (p, tt)
  All-put k v ((j, w) ∷ m) p (q, a) = elim (Bool-cases (text_eq j k)) [
    | inl e ↦ rw e (subst (λ i. P (i, v)) (sym ((text_eq_iff j k).0 e)) p, a)
    | inr e ↦ rw e (q, All-put k v m p a)
  ]

  pub All-overlay : (m n : List (Text × V)) → All P m → All P n → All P (overlay m n)
  unfolding overlay
  All-overlay m [] a b = a
  All-overlay m ((k, v) ∷ n) a (p, b) = All-overlay (put k v m) n (All-put k v m p a) b

-- What all entries satisfy, the entry found does.
pub All-get {ℓ κ} :
    {V : Type ℓ} (Q : Text × V → Type κ) (k : Text) (m : Dict V) (v : V)
    → All Q m
    → get k m ≡ some v
    → Q (k, v)
unfolding get
All-get Q k [] v a e = absurd (ground (arith, e))
All-get Q k ((j, w) ∷ m) v (q, a) e = elim (Bool-cases (text_eq j k)) [
  | inl same ↦
      let here : w ≡ v = ground (arith, same, e) in
      subst (λ i. Q (i, v)) ((text_eq_iff j k).0 same) (subst (λ x. Q (j, x)) here q)
  | inr other ↦ All-get Q k m v a (ground (arith, other, e))
]
