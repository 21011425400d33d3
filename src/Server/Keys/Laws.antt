-- ===== src/Server/Keys/Laws.antt =====
-- The addresses that a key manager generates.
use rif_relay.Base.{
  All, All-append, Text, [], add-zero, append-nil, append_assoc, arith, false, get_elem?, map, refl,
  some, suc, sym, text_eq, text_eq_iff, zero, ℕ, ◌++◌, ◌+◌, ◌<◌, ◌∷◌, ◌≡◌,
}
use rif_relay.Base.Dict.{put}
use rif_relay.Common.Utils.{Address}
use rif_relay.Server.Keys.{Keys, Wallet, generate_from, generate_keys, get_address}

-- `derive` gives different addresses at different indices.

abbrev pub IsInjective : (ℕ → Wallet) → Type 0
IsInjective derive = (i j : ℕ) → (derive i).address ≡ (derive j).address → i ≡ j

abbrev derived : (ℕ → Wallet) → ℕ → ℕ → Keys
derived derive zero index = []
derived derive (suc left) index =
    ((derive index).address, (derive index).private_key) ∷ derived derive left (index + 1)

abbrev IsFresh : Address → Keys → Type 0
IsFresh a keys = All (λ e. text_eq e.0 a ≡ false) keys

put_of_IsFresh : (a k : Text) (keys : Keys) → IsFresh a keys → put a k keys ≡ keys ++ (a, k) ∷ []
unfolding put
put_of_IsFresh a k [] h = refl
put_of_IsFresh a k ((b, l) ∷ keys) h = ground (arith, put_of_IsFresh a k keys h.1)

module _ (derive : ℕ → Wallet) (injective : IsInjective derive) where
  address_differs : (i j : ℕ) → i < j → text_eq (derive i).address (derive j).address ≡ false
  address_differs i j h =
      ground (arith, text_eq_iff (derive i).address (derive j).address, injective i j)

  abbrev AllBelow : ℕ → Keys → Type 0
  AllBelow n keys = All (λ e. (i : ℕ) × (i < n) × (e.0 ≡ (derive i).address)) keys

  AllBelow-IsFresh : (n : ℕ) (keys : Keys) → AllBelow n keys → IsFresh (derive n).address keys
  AllBelow-IsFresh n [] h = tt
  AllBelow-IsFresh n ((a, k) ∷ keys) ((i, lt, e), h) =
      (rw e (address_differs i n lt), AllBelow-IsFresh n keys h)

  AllBelow-mono : (n : ℕ) (keys : Keys) → AllBelow n keys → AllBelow (n + 1) keys
  AllBelow-mono n [] h = tt
  AllBelow-mono n ((a, k) ∷ keys) ((i, lt, e), h) = ((i, omega arith, e), AllBelow-mono n keys h)

  generate_from-derived :
      (left index : ℕ) (keys : Keys)
      → AllBelow index keys
      → generate_from derive left index keys ≡ keys ++ derived derive left index
  unfolding generate_from
  generate_from-derived zero index keys h = sym (append-nil keys)
  generate_from-derived (suc left) index keys h =
      rw (put_of_IsFresh _ (derive index).private_key keys (AllBelow-IsFresh index keys h)) (
        rw
          (generate_from-derived left (index + 1)
            (keys ++ ((derive index).address, (derive index).private_key) ∷ [])
            (All-append _ keys _ (AllBelow-mono index keys h) ((index, omega arith, refl), tt)))
          (append_assoc keys _ _))

  get_elem?-derived :
      (left index i : ℕ)
      → i < left
      → get_elem? (map (λ e. e.0) (derived derive left index)) i ≡ some (derive (index + i)).address
  get_elem?-derived zero index i h = elim h [ ]
  get_elem?-derived (suc left) index zero h = rw (add-zero index)
  get_elem?-derived (suc left) index (suc i) h =
      let e : index + suc i ≡ index + 1 + i = omega arith in
      rw e (get_elem?-derived left (index + 1) i (omega arith))

  -- With distinct derived addresses, the address at each index below the count is the one that was
  -- derived for that index.
  pub get_address-generate_keys :
      (count i : ℕ)
      → i < count
      → get_address i (generate_keys derive count) ≡ some (derive i).address
  unfolding get_address generate_keys
  get_address-generate_keys count i h =
      rw (generate_from-derived count 0 [] tt)
        (let e : 0 + i ≡ i = omega arith in rw e at (get_elem?-derived count 0 i h))
