-- ===== src/Base/Lists.antt =====
-- Lists measured by native numbers, and the array methods of the program over Boolean tests.
use Prim.Native.Nat.{suc, zero, ℕ, ◌+◌, ◌<◌, ◌≤◌}
use mathlib.Core.Bool.{Bool, false, not, true, ◌&&◌, ◌||◌}
use mathlib.Core.List.{List, Memᴰ, [], map, ◌++◌, ◌∷◌}
use mathlib.Core.Logic.{inl, inr, ◌⊎◌}
use mathlib.Core.Option.{Option, none, some}
use mathlib.Core.Path.{ap, refl, subst, sym, ◌∙◌, ◌≡◌}
use native.Mathlib.Omega.{arith}
use rif_relay.Base.Tests.{if◌then◌else◌}

-- `P` holds of every element.
abbrev pub All {ℓ κ} : {A : Type ℓ} → (A → Type κ) → List A → Type κ
All P [] = Unit
All P (x ∷ xs) = P x × All P xs

module _ {ℓ} {A : Type ℓ} where
  abbrev pub length : List A → ℕ
  length [] = 0
  length (x ∷ xs) = suc (length xs)

  abbrev pub take : ℕ → List A → List A
  take zero xs = []
  take (suc n) [] = []
  take (suc n) (x ∷ xs) = x ∷ take n xs

  abbrev pub drop : ℕ → List A → List A
  drop zero xs = xs
  drop (suc n) [] = []
  drop (suc n) (x ∷ xs) = drop n xs

  -- `xs[i]`: undefined past the end.
  abbrev pub get_elem? : List A → ℕ → Option A
  get_elem? [] i = none
  get_elem? (x ∷ xs) zero = some x
  get_elem? (x ∷ xs) (suc i) = get_elem? xs i

  -- `xs.filter(p)`.
  abbrev pub filter : (A → Bool) → List A → List A
  filter p [] = []
  filter p (x ∷ xs) = if p x then x ∷ filter p xs else filter p xs

  -- `xs.find(p)`.
  abbrev pub find : (A → Bool) → List A → Option A
  find p [] = none
  find p (x ∷ xs) = if p x then some x else find p xs

  -- `xs.find(p) != null`, for arrays that hold no null.
  abbrev pub any : (A → Bool) → List A → Bool
  any p [] = false
  any p (x ∷ xs) = p x || any p xs

  pub length-append : (xs ys : List A) → length (xs ++ ys) ≡ length xs + length ys
  length-append [] ys = omega arith
  length-append (x ∷ xs) ys = omega (arith, length-append xs ys)

  pub length-filter-le : (p : A → Bool) (xs : List A) → length (filter p xs) ≤ length xs
  length-filter-le p [] = omega arith
  length-filter-le p (x ∷ xs) = ground (arith, length-filter-le p xs)

  pub any-append : (p : A → Bool) (xs ys : List A) → any p (xs ++ ys) ≡ (any p xs || any p ys)
  any-append p [] ys = refl
  any-append p (x ∷ xs) ys = ground (arith, any-append p xs ys)

  -- Nothing that the test drops passes it afterwards.
  pub any-filter-not :
      (p q : A → Bool) (xs : List A)
      → any q (filter (λ x. not (p x)) xs) ≡ any (λ x. q x && not (p x)) xs
  any-filter-not p q [] = refl
  any-filter-not p q (x ∷ xs) = ground (arith, any-filter-not p q xs)

module _ {ℓ κ} {A : Type ℓ} (P : A → Type κ) where
  pub All-append : (xs ys : List A) → All P xs → All P ys → All P (xs ++ ys)
  All-append [] ys hx hy = hy
  All-append (x ∷ xs) ys hx hy = (hx.0, All-append xs ys hx.1 hy)

  -- What holds of every element holds of one of them.
  pub All-at : {x : A} (xs : List A) → Memᴰ x xs → All P xs → P x
  All-at [] m h = elim m [ ]
  All-at (y ∷ ys) (Memᴰ.head e) h = subst P (sym e) h.0
  All-at (y ∷ ys) (Memᴰ.tail m) h = All-at ys m h.1

  pub All-filter : (p : A → Bool) (xs : List A) → All P xs → All P (filter p xs)
  All-filter p [] h = tt
  All-filter p (x ∷ xs) h = ground (arith, All-filter p xs h.1)

  pub All-map_of : {Q : A → Type κ} → ((a : A) → P a → Q a) → (xs : List A) → All P xs → All Q xs
  All-map_of f [] h = tt
  All-map_of f (x ∷ xs) h = (f x h.0, All-map_of f xs h.1)

-- Every element that the filter keeps passes its test.
pub All-filter_self {ℓ} :
    {A : Type ℓ} (p : A → Bool) (xs : List A) → All (λ x. p x ≡ true) (filter p xs)
All-filter_self p [] = tt
All-filter_self p (x ∷ xs) = ground (arith, All-filter_self p xs)

-- `xs.flat()`.
abbrev pub flatten {ℓ} : {A : Type ℓ} → List (List A) → List A
flatten [] = []
flatten (xs ∷ xss) = xs ++ flatten xss

module _ {ℓ} {A : Type ℓ} where
  pub List-cases : (xs : List A) → (xs ≡ []) ⊎ ((y : A) × (ys : List A) × (xs ≡ y ∷ ys))
  List-cases [] = inl refl
  List-cases (y ∷ ys) = inr (y, ys, refl)

  pub Mem-take : {x : A} (n : ℕ) (xs : List A) → Memᴰ x (take n xs) → Memᴰ x xs
  Mem-take zero xs m = elim m [ ]
  Mem-take (suc n) [] m = elim m [ ]
  Mem-take (suc n) (y ∷ ys) (Memᴰ.head e) = Memᴰ.head e
  Mem-take (suc n) (y ∷ ys) (Memᴰ.tail m) = Memᴰ.tail (Mem-take n ys m)

  pub Mem-append_left : {x : A} (xs ys : List A) → Memᴰ x xs → Memᴰ x (xs ++ ys)
  Mem-append_left [] ys m = elim m [ ]
  Mem-append_left (z ∷ zs) ys (Memᴰ.head e) = Memᴰ.head e
  Mem-append_left (z ∷ zs) ys (Memᴰ.tail m) = Memᴰ.tail (Mem-append_left zs ys m)

  pub Mem-append_right : {x : A} (xs ys : List A) → Memᴰ x ys → Memᴰ x (xs ++ ys)
  Mem-append_right [] ys m = m
  Mem-append_right (z ∷ zs) ys m = Memᴰ.tail (Mem-append_right zs ys m)

  pub filter-append :
      (p : A → Bool) (xs ys : List A) → filter p (xs ++ ys) ≡ filter p xs ++ filter p ys
  filter-append p [] ys = refl
  filter-append p (x ∷ xs) ys = ground (arith, filter-append p xs ys)

  pub flatten-map-filter :
      (p : A → Bool) (xss : List (List A)) → flatten (map (filter p) xss) ≡ filter p (flatten xss)
  flatten-map-filter p [] = refl
  flatten-map-filter p (xs ∷ xss) =
      ap (λ ys. filter p xs ++ ys) (flatten-map-filter p xss)
      ∙ sym (filter-append p xs (flatten xss))

  -- A filter that drops an element of the list makes it shorter.
  pub length-filter-lt :
      {x : A} (p : A → Bool) (xs : List A)
      → Memᴰ x xs
      → p x ≡ false
      → length (filter p xs) < length xs
  length-filter-lt p [] m h = elim m [ ]
  length-filter-lt {x} p (y ∷ ys) (Memᴰ.head e) h = ground (arith, ap p e, length-filter-le p ys)
  length-filter-lt p (y ∷ ys) (Memᴰ.tail m) h = ground (arith, length-filter-lt p ys m h)
