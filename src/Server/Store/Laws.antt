-- ===== src/Server/Store/Laws.antt =====
-- What the transaction store promises its clients.
use rif_relay.Base.{
  All, All-append, All-filter, Bool, Bool-cases, List, Option, Option-cases, [], any, ap, arith,
  false, filter, find, if◌then◌else◌, inl, inr, is_some, leb, none, not, refl, some, text_eq_iff,
  text_eq_refl, to_lower, to_lower_idem, true, ℕ, ◌&&◌, ◌++◌, ◌∷◌, ◌≡◌,
}
use rif_relay.Base.Exec.{ok, ◌>>=◌}
use rif_relay.Common.Utils.{Address, is_same_address}
use rif_relay.Server.Store.{
  Datastore, Docs, IsDatastore, clash, get_tx_by_nonce, has_key, has_nonce_signer, is_storable,
  put_tx, remove_txs_until_nonce, replace, save, stored_form, until_nonce, without, write,
}
use rif_relay.Server.Store.Unique.{
  Unique, append-Unique, filter-Unique, replace-Unique, same_nonce_signer_comm,
}
use rif_relay.Server.Stored.{StoredTx}

-- The unique indexes hold, and each document carries its own key, in lower case.

pub record IsConsistent (ds : Docs) : Type 0 where
  pub unique : Unique ds
  pub keyed : All (λ t. stored_form t ≡ t) ds

stored_form_idem : (t : StoredTx) → stored_form (stored_form t) ≡ stored_form t
unfolding stored_form
stored_form_idem t = rw (to_lower_idem t.tx_id)

All-replace {κ} :
    (P : StoredTx → Type κ) (q : StoredTx → Bool) (t : StoredTx) (ds : Docs)
    → P t
    → All P ds
    → All P (replace q t ds)
All-replace P q t [] p h = tt
All-replace P q t (x ∷ xs) p h = ground (arith, All-replace P q t xs p h.1)

any-find : {A : Type 0} (p : A → Bool) (xs : List A) → is_some (find p xs) ≡ any p xs
any-find p [] = refl
any-find p (x ∷ xs) = ground (arith, any-find p xs)

-- The document that a search finds is there and passes the search's test, also for another test.
any-of_find :
    (p q : StoredTx → Bool) (x : StoredTx) (ds : Docs)
    → find p ds ≡ some x
    → q x ≡ true
    → any q ds ≡ true
any-of_find p q x [] e h = cc
any-of_find p q x (y ∷ ys) e h = ground (arith, any-of_find p q x ys)

find-append :
    (p : StoredTx → Bool) (t : StoredTx) (ds : Docs)
    → any p ds ≡ false
    → p t ≡ true
    → find p (ds ++ t ∷ []) ≡ some t
find-append p t [] h k = rw k
find-append p t (x ∷ xs) h k = ground (arith, find-append p t xs)

find-replace :
    (p q : StoredTx → Bool) (t : StoredTx) (ds : Docs)
    → any p (without q ds) ≡ false
    → any q ds ≡ true
    → p t ≡ true
    → find p (replace q t ds) ≡ some t
find-replace p q t [] h m k = cc
find-replace p q t (x ∷ xs) h m k = ground (arith, find-replace p q t xs)

any-weaken :
    (p q : StoredTx → Bool) (ds : Docs)
    → ((u : StoredTx) → p u ≡ true → q u ≡ true)
    → any q ds ≡ false
    → any p ds ≡ false
any-weaken p q [] f h = refl
any-weaken p q (x ∷ xs) f h = ground (arith, f x, any-weaken p q xs f)

find-keep :
    (s s' : Address) (n n' : ℕ) (ds : Docs)
    → find (has_key s' n') (filter (λ x. not (until_nonce s n x)) ds)
      ≡ (if is_same_address s' s && leb n' n then none else find (has_key s' n') ds)
unfolding is_same_address
find-keep s s' n n' [] = ground arith
find-keep s s' n n' (x ∷ xs) = elim (Option-cases x.nonce_signer) [
  | inl e ↦ rw e (find-keep s s' n n' xs)
  | inr (k, e) ↦ ground (
    arith,
    find-keep s s' n n' xs,
    text_eq_iff k.signer (to_lower s),
    text_eq_iff k.signer (to_lower s'),
    text_eq_iff (to_lower s') (to_lower s),
  )
]

module _ (d : Datastore) (law : IsDatastore d) where
  insert-IsConsistent :
      (t : StoredTx) (ds : Docs)
      → IsConsistent ds
      → IsConsistent (save (d.insert (stored_form t) ds) ds).1
  insert-IsConsistent t ds c =
      rw (law.insert_lem (stored_form t) ds) (elim (Bool-cases (any (clash (stored_form t)) ds)) [
        | inl e ↦ rw e c
        | inr e ↦ rw e (record {
          unique = append-Unique (stored_form t) ds e c.unique;
          keyed = All-append _ ds (stored_form t ∷ []) c.keyed (stored_form_idem t, tt);
        })
      ])

  update-IsConsistent :
      (q : StoredTx → Bool) (t : StoredTx) (ds : Docs)
      → any q ds ≡ true
      → IsConsistent ds
      → IsConsistent (save (d.update q (stored_form t) ds) ds).1
  update-IsConsistent q t ds m c =
      rw (law.update_lem q (stored_form t) ds m)
        (elim (Bool-cases (any (clash (stored_form t)) (without q ds))) [
          | inl e ↦ rw e c
          | inr e ↦ rw e (record {
            unique = replace-Unique q (stored_form t) ds e c.unique;
            keyed = All-replace _ q (stored_form t) ds (stored_form_idem t) c.keyed;
          })
        ])

  write-IsConsistent :
      (t : StoredTx) (b : Bool) (o : Option StoredTx) (ds : Docs)
      → find (has_nonce_signer (stored_form t)) ds ≡ o
      → IsConsistent ds
      → IsConsistent (write d (stored_form t) b o ds).1
  unfolding write
  write-IsConsistent t true (some x) ds e c =
      update-IsConsistent _ t ds (any-of_find _ _ x ds e (text_eq_refl x.tx_id)) c
  write-IsConsistent t true none ds e c = insert-IsConsistent t ds c
  write-IsConsistent t false _ ds e c = insert-IsConsistent t ds c

  -- Over a datastore that does what is documented, and on every branch, refused writes included,
  -- `put_tx` keeps the store consistent: unique transaction ids, unique (nonce, signer) keys, and
  -- each document in its stored form.
  pub put_tx-IsConsistent :
      (t : StoredTx) (b : Bool) (ds : Docs) → IsConsistent ds → IsConsistent (put_tx d t b ds).1
  unfolding put_tx ◌>>=◌
  put_tx-IsConsistent t b ds c = elim (Bool-cases (is_storable t)) [
    | inl e ↦ rw (e, law.find_one_lem) (write-IsConsistent t b _ ds refl c)
    | inr e ↦ rw e c
  ]

  -- The key of `stored_form t` under another spelling of the search.
  key_clash :
      (t u : StoredTx) → has_nonce_signer (stored_form t) u ≡ true → clash (stored_form t) u ≡ true
  key_clash t u h =
      ground (arith, same_nonce_signer_comm u.nonce_signer (stored_form t).nonce_signer)

  key_self : (t : StoredTx) → has_nonce_signer (stored_form t) (stored_form t) ≡ true
  unfolding stored_form
  key_self t = ground (arith, text_eq_refl (to_lower t.from))

  find-insert :
      (t : StoredTx) (ds ds' : Docs)
      → save (d.insert (stored_form t) ds) ds ≡ (ok tt, ds')
      → find (has_nonce_signer (stored_form t)) ds' ≡ some (stored_form t)
  find-insert t ds ds' e =
      let e' = rw (law.insert_lem (stored_form t) ds) at e in
      elim (Bool-cases (any (clash (stored_form t)) ds)) [
        | inl h ↦ absurd (ground arith)
        | inr h ↦
            let same : ds ++ stored_form t ∷ [] ≡ ds' = ap (λ r. r.1) (rw h at e') in
            rw (← same)
              (find-append _ (stored_form t) ds (any-weaken _ _ ds (key_clash t) h) (key_self t))
      ]

  find-update :
      (q : StoredTx → Bool) (t : StoredTx) (ds ds' : Docs)
      → any q ds ≡ true
      → save (d.update q (stored_form t) ds) ds ≡ (ok tt, ds')
      → find (has_nonce_signer (stored_form t)) ds' ≡ some (stored_form t)
  find-update q t ds ds' m e =
      let e' = rw (law.update_lem q (stored_form t) ds m) at e in
      elim (Bool-cases (any (clash (stored_form t)) (without q ds))) [
        | inl h ↦ absurd (ground arith)
        | inr h ↦
            let same : replace q (stored_form t) ds ≡ ds' = ap (λ r. r.1) (rw h at e') in
            rw (← same) (
              find-replace _ q (stored_form t) ds (any-weaken _ _ _ (key_clash t) h) m (key_self t))
      ]

  find-write :
      (t : StoredTx) (b : Bool) (o : Option StoredTx) (ds ds' : Docs)
      → find (has_nonce_signer (stored_form t)) ds ≡ o
      → write d (stored_form t) b o ds ≡ (ok tt, ds')
      → find (has_nonce_signer (stored_form t)) ds' ≡ some (stored_form t)
  unfolding write
  find-write t true (some x) ds ds' e h =
      find-update _ t ds ds' (any-of_find _ _ x ds e (text_eq_refl x.tx_id)) h
  find-write t true none ds ds' e h = find-insert t ds ds' h
  find-write t false _ ds ds' e h = find-insert t ds ds' h

  -- Over a datastore that does what is documented, a transaction that was put is found under its
  -- sender and nonce, in its stored form, whether it was inserted or replaced an earlier one.
  pub get_tx_by_nonce-put_tx :
      (t : StoredTx) (b : Bool) (ds ds' : Docs)
      → put_tx d t b ds ≡ (ok tt, ds')
      → get_tx_by_nonce d t.from t.nonce ds' ≡ some (stored_form t)
  unfolding put_tx get_tx_by_nonce stored_form ◌>>=◌
  get_tx_by_nonce-put_tx t b ds ds' e = elim (Bool-cases (is_storable t)) [
    | inl h ↦ rw law.find_one_lem (find-write t b _ ds ds' refl (rw (h, law.find_one_lem) at e))
    | inr h ↦ absurd (ground arith)
  ]

  -- Over a datastore that does what is documented, removing a signer's transactions up to a nonce
  -- removes exactly those: a later search by signer and nonce fails for them, and finds for any
  -- other what it found before.
  pub get_tx_by_nonce-remove_txs_until_nonce :
      (s s' : Address) (n n' : ℕ) (ds : Docs)
      → get_tx_by_nonce d s' n' (remove_txs_until_nonce d s n ds)
        ≡ (if is_same_address s' s && leb n' n then none else get_tx_by_nonce d s' n' ds)
  unfolding get_tx_by_nonce remove_txs_until_nonce is_same_address
  get_tx_by_nonce-remove_txs_until_nonce s s' n n' ds =
      rw (law.remove_lem, law.find_one_lem _ ds, law.find_one_lem) (find-keep s s' n n' ds)

  pub remove_txs_until_nonce-IsConsistent :
      (signer : Address) (n : ℕ) (ds : Docs)
      → IsConsistent ds
      → IsConsistent (remove_txs_until_nonce d signer n ds)
  unfolding remove_txs_until_nonce
  remove_txs_until_nonce-IsConsistent signer n ds c =
      rw law.remove_lem
        (record { unique = filter-Unique _ ds c.unique; keyed = All-filter _ _ ds c.keyed })
