-- ===== src/Base/Sort.antt =====
-- `Array.prototype.sort`: a stable sort by a comparison, here by insertion.
use mathlib.Core.List.Memᴰ
use mathlib.Core.List.Perm
use mathlib.Core.Bool.{Bool, false, true, ◌||◌}
use mathlib.Core.List.{List, Memᴰ, Perm, [], ◌∷◌}
use mathlib.Core.Logic.{inl, inr, ◌⊎◌}
use mathlib.Core.Path.{refl, subst, ◌≡◌}
use native.Mathlib.Omega.{arith}
use rif_relay.Base.Lists.{All, any}
use rif_relay.Base.Tests.{Bool-cases, if◌then◌else◌}

-- `le x y`: the comparison of `x` and `y` is not positive.
module _ {A : Type 0} (le : A → A → Bool) where
  unfoldable pub insert : A → List A → List A
  insert x [] = x ∷ []
  insert x (y ∷ ys) = if le x y then x ∷ y ∷ ys else y ∷ insert x ys

  unfoldable pub sort : List A → List A
  unfolding insert
  sort [] = []
  sort (x ∷ xs) = insert x (sort xs)

  abbrev pub IsSorted : List A → Type 0
  IsSorted [] = Unit
  IsSorted (x ∷ xs) = All (λ y. le x y ≡ true) xs × IsSorted xs

  insert-perm : (x : A) (xs : List A) → Perm (insert x xs) (x ∷ xs)
  unfolding insert
  insert-perm x [] = Perm.refl _
  insert-perm x (y ∷ ys) = elim (Bool-cases (le x y)) [
    | inl e ↦ rw e (Perm.refl _)
    | inr e ↦ rw e (Perm.trans (Perm.cons y (insert-perm x ys)) (Perm.swap x y ys))
  ]

  -- Sorting loses nothing and makes nothing up.
  pub sort-perm : (xs : List A) → Perm (sort xs) xs
  unfolding sort
  sort-perm [] = Perm.refl _
  sort-perm (x ∷ xs) = Perm.trans (insert-perm x (sort xs)) (Perm.cons x (sort-perm xs))

  All-insert {κ} : (P : A → Type κ) (x : A) (xs : List A) → P x → All P xs → All P (insert x xs)
  unfolding insert
  All-insert P x [] p h = (p, tt)
  All-insert P x (y ∷ ys) p h = ground (arith, All-insert P x ys p h.1)

  pub All-sort {κ} : (P : A → Type κ) (xs : List A) → All P xs → All P (sort xs)
  unfolding sort
  All-sort P [] h = tt
  All-sort P (x ∷ xs) h = All-insert P x (sort xs) h.0 (All-sort P xs h.1)

  All-uninsert {κ} : (P : A → Type κ) (x : A) (xs : List A) → All P (insert x xs) → P x × All P xs
  unfolding insert
  All-uninsert P x [] h = h
  All-uninsert P x (y ∷ ys) h = ground (arith, All-uninsert P x ys)

  pub All-unsort {κ} : (P : A → Type κ) (xs : List A) → All P (sort xs) → All P xs
  unfolding sort
  All-unsort P [] h = tt
  All-unsort P (x ∷ xs) h = let (p, q) = All-uninsert P x (sort xs) h in (p, All-unsort P xs q)

  Mem-uninsert : (a x : A) (xs : List A) → Memᴰ a (insert x xs) → (a ≡ x) ⊎ Memᴰ a xs
  unfolding insert
  Mem-uninsert a x [] h = Memᴰ.cases_cons h
  Mem-uninsert a x (y ∷ ys) h = elim (Bool-cases (le x y)) [
    | inl e ↦ Memᴰ.cases_cons (subst (λ b. Memᴰ a (if b then x ∷ y ∷ ys else y ∷ insert x ys)) e h)
    | inr e ↦
        elim (Memᴰ.cases_cons
          (subst (λ b. Memᴰ a (if b then x ∷ y ∷ ys else y ∷ insert x ys)) e h)) [
            | inl p ↦ inr (Memᴰ.head p)
            | inr m ↦ elim (Mem-uninsert a x ys m) [ inl p ↦ inl p | inr k ↦ inr (Memᴰ.tail k) ]
          ]
  ]

  -- What the sorted list holds, the list holds.
  pub Mem-unsort : (a : A) (xs : List A) → Memᴰ a (sort xs) → Memᴰ a xs
  unfolding sort
  Mem-unsort a [] h = h
  Mem-unsort a (x ∷ xs) h = elim (Mem-uninsert a x (sort xs) h) [
    | inl p ↦ Memᴰ.head p
    | inr m ↦ Memᴰ.tail (Mem-unsort a xs m)
  ]

  any-insert : (p : A → Bool) (x : A) (xs : List A) → any p (insert x xs) ≡ (p x || any p xs)
  unfolding insert
  any-insert p x [] = refl
  any-insert p x (y ∷ ys) = ground (arith, any-insert p x ys)

  pub any-sort : (p : A → Bool) (xs : List A) → any p (sort xs) ≡ any p xs
  unfolding sort
  any-sort p [] = refl
  any-sort p (x ∷ xs) = ground (arith, any-insert p x (sort xs), any-sort p xs)

  module _ (le_total : (x y : A) → le x y ≡ false → le y x ≡ true)
      (le_trans : (x y z : A) → le x y ≡ true → le y z ≡ true → le x z ≡ true) where
    All-le_trans :
        (x y : A) (ys : List A)
        → le x y ≡ true
        → All (λ z. le y z ≡ true) ys
        → All (λ z. le x z ≡ true) ys
    All-le_trans x y [] e h = tt
    All-le_trans x y (z ∷ zs) e h = (le_trans x y z e h.0, All-le_trans x y zs e h.1)

    insert-IsSorted : (x : A) (xs : List A) → IsSorted xs → IsSorted (insert x xs)
    unfolding insert
    insert-IsSorted x [] s = (tt, tt)
    insert-IsSorted x (y ∷ ys) s = elim (Bool-cases (le x y)) [
      | inl e ↦ rw e ((e, All-le_trans x y ys e s.0), s)
      | inr e ↦
          rw e (All-insert (λ z. le y z ≡ true) x ys (le_total x y e) s.0, insert-IsSorted x ys s.1)
    ]

    -- With a total preorder the result ascends.
    pub sort-IsSorted : (xs : List A) → IsSorted (sort xs)
    unfolding sort
    sort-IsSorted [] = tt
    sort-IsSorted (x ∷ xs) = insert-IsSorted x (sort xs) (sort-IsSorted xs)
