-- ===== src/Server/Transactions/Nonces.antt =====
-- The nonces that `sendTransaction` hands out.
use rif_relay.Base.{
  Option, Option-cases, Text, [], arith, if◌then◌else◌, inl, inr, is_some, max, none, or_else, refl,
  some, text_eq, text_eq_iff, text_eq_refl, true, ℕ, ◌++◌, ◌+◌, ◌∙◌, ◌∷◌, ◌≡◌, ◌≤◌,
}
use rif_relay.Base.Dict.{Dict, get, get-put}
use rif_relay.Base.Exec.{>>=-eq-ok, Exec, Result, Result-cases, lift, modify, ok, ◌>>=◌}
use rif_relay.Base.Steps.{
  IsPreorder, Steps, Steps-bind, Steps-gets, Steps-lift, Steps-pure, Steps-require,
}
use rif_relay.Common.Utils.{Address}
use rif_relay.Server.Store.{Docs}
use rif_relay.Server.Stored.{StoredTx, Transaction}
use rif_relay.Server.Transactions.{
  IsEthTx, Ratio, SendDetails, TxEnv, TxState, ask, bump_nonce, count_and_store, on_docs,
  poll_nonce, raise_nonce, resend_transaction, send_params, sign_and_store, sign_details,
}

raised : ℕ → Option ℕ → Option ℕ
raised n none = none
raised n (some m) = some (max n m)

bumped : Option ℕ → Option ℕ
bumped none = none
bumped (some m) = some (m + 1)

get-raise_nonce :
    (s a : Address) (n : ℕ) (ns : Dict ℕ)
    → get a (raise_nonce s n ns) ≡ (if text_eq s a then raised n (get a ns) else get a ns)
unfolding raise_nonce raised
get-raise_nonce s a n ns = ground (arith, get-put s a n ns, text_eq_iff s a)

get-bump_nonce :
    (s a : Address) (ns : Dict ℕ)
    → get a (bump_nonce s ns) ≡ (if text_eq s a then bumped (get a ns) else get a ns)
unfolding bump_nonce bumped
get-bump_nonce s a ns = elim (Option-cases (get s ns)) [
  | inl e ↦ rw (e, bump_nonce) (ground (arith, text_eq_iff s a))
  | inr (m, e) ↦ rw (e, bump_nonce) (ground (arith, get-put s a (m + 1) ns, text_eq_iff s a))
]

-- The next nonce of a signer, 0 for one that is not known.
abbrev pub next_nonce : Address → TxState → ℕ
next_nonce a s = or_else (get a s.nonces) 0

-- The signer has a nonce.
abbrev pub IsKnown : Address → TxState → Type 0
IsKnown a s = is_some (get a s.nonces) ≡ true

-- No signer's next nonce falls, and none is forgotten.
abbrev pub Rises : TxState → TxState → Type 0
Rises s t = (a : Address) → (next_nonce a s ≤ next_nonce a t) × (IsKnown a s → IsKnown a t)

pub Rises-IsPreorder : IsPreorder Rises
Rises-IsPreorder = record {
  same = λ s a. (omega arith, λ h. h);
  then_ = λ s t u f g a. (omega (arith, (f a).0, (g a).0), λ h. (g a).1 ((f a).1 h));
}

pub ask-Rises : {A : Type 0} (request : ℕ → Result A) → Steps Rises (ask request)
ask-Rises request = record { at = λ s a. (omega arith, λ h. h) }

pub on_docs-Rises : (m : Exec Docs (Unit {0})) → Steps Rises (on_docs m)
on_docs-Rises m = record { at = λ s a. (omega arith, λ h. h) }

pub raise_nonce-Rises :
    (signer : Address) (n : ℕ)
    → Steps Rises (modify λ s. record s { nonces = raise_nonce signer n s.nonces })
unfolding raised
raise_nonce-Rises signer n = record {
  at = λ s a. ground (arith, get-raise_nonce signer a n s.nonces);
}

bump_nonce-Rises :
    (signer : Address) → Steps Rises (modify λ s. record s { nonces = bump_nonce signer s.nonces })
unfolding bumped
bump_nonce-Rises signer = record { at = λ s a. ground (arith, get-bump_nonce signer a s.nonces) }

sent-Rises : (raw : Text) → Steps Rises (modify λ s. record s { sent = s.sent ++ raw ∷ [] })
sent-Rises raw = record { at = λ s a. (omega arith, λ h. h) }

module _ (env : TxEnv) where
  poll_nonce-Rises : (signer : Address) → Steps Rises (poll_nonce env signer)
  unfolding poll_nonce
  poll_nonce-Rises signer = search (
    Steps-bind Rises Rises-IsPreorder,
    Steps-gets Rises Rises-IsPreorder,
    ask-Rises,
    raise_nonce-Rises,
  )

  -- Whatever the node answers, and whether the call returns or throws, no signer's next nonce falls.
  pub sign_and_store-Rises :
      (details : SendDetails) (price : ℕ) → Steps Rises (sign_and_store env details price)
  unfolding sign_and_store
  sign_and_store-Rises details price = search (
    Steps-bind Rises Rises-IsPreorder,
    Steps-lift Rises Rises-IsPreorder,
    poll_nonce-Rises,
    bump_nonce-Rises,
    on_docs-Rises,
  )

  pub resend_transaction-Rises :
      (tx : StoredTx) (block : ℕ) (price : Ratio)
      → Steps Rises (resend_transaction env tx block price)
  unfolding resend_transaction
  resend_transaction-Rises tx block price =
      search
        (
          Steps-bind Rises Rises-IsPreorder,
          Steps-lift Rises Rises-IsPreorder,
          Steps-require Rises Rises-IsPreorder,
          Steps-pure Rises Rises-IsPreorder,
          ask-Rises,
          sent-Rises,
          on_docs-Rises,
        )
        depth 12

  -- A poll that returns gives a known signer its next nonce, raised to the node's count.
  poll_nonce_lem :
      (signer : Address) (s : TxState) (m : ℕ) {r : Option ℕ}
      → get signer s.nonces ≡ some m
      → poll_nonce env signer s ≡ (ok r, (poll_nonce env signer s).1)
      → (n : ℕ) × (r ≡ some n) × (get signer (poll_nonce env signer s).1.nonces ≡ some n) × (m ≤ n)
  unfolding poll_nonce raised ◌>>=◌
  poll_nonce_lem signer s m h e =
      elim (Result-cases (env.node.transaction_count true signer s.time)) [
        | inl (n, q) ↦ (
          max n m,
          ground (arith, q, get-raise_nonce signer signer n s.nonces, text_eq_refl signer),
          ground (arith, q, get-raise_nonce signer signer n s.nonces, text_eq_refl signer),
          omega arith,
        )
        | inr (x, q) ↦ absurd (ground (arith, q))
      ]

  count_and_store_lem :
      (details : SendDetails) (signed : Transaction) (s s' : TxState) (stored : StoredTx)
      (raw : Text) (n : ℕ)
      → get details.signer s.nonces ≡ some n
      → count_and_store env details signed s ≡ (ok (stored, raw), s')
      → (stored.nonce ≡ signed.nonce)
        × (next_nonce details.signer s' ≡ n + 1)
        × (stored.from ≡ details.signer)
  unfolding count_and_store bumped ◌>>=◌
  count_and_store_lem details signed s s' stored raw n h e =
      ground
        (arith, get-bump_nonce details.signer details.signer s.nonces, text_eq_refl details.signer)

  module _ (law : IsEthTx env.eth) where
    sign_details-nonce :
        (details : SendDetails) (price n : ℕ) (key : Text)
        → (sign_details env details price (some n) key).nonce ≡ n
    unfolding sign_details send_params
    sign_details-nonce details price n key = law.sign_lem key _ ∙ law.nonce_lem _ n refl

    pub sign_and_store_nonce :
        (details : SendDetails) (price : ℕ) (s s' : TxState) (stored : StoredTx) (raw : Text)
        → IsKnown details.signer s
        → sign_and_store env details price s ≡ (ok (stored, raw), s')
        → (next_nonce details.signer s ≤ stored.nonce)
          × (next_nonce details.signer s' ≡ stored.nonce + 1)
          × (stored.from ≡ details.signer)
    unfolding sign_and_store
    sign_and_store_nonce details price s s' stored raw known e =
        elim (Option-cases (get details.signer s.nonces)) [
          | inl h ↦ absurd (ground arith)
          | inr (m, h) ↦
              let (r, p, e1) = >>=-eq-ok (poll_nonce env details.signer) _ s e in
              let (n, re, g, le) = poll_nonce_lem details.signer s m h p in
              let (key, _, e2) = >>=-eq-ok (lift _) _ _ e1 in
              let (same, next, by) = count_and_store_lem details _ _ s' stored raw n g e2 in
              let chosen : stored.nonce ≡ n =
                same ∙ (rw re (sign_details-nonce details price n key)) in
              (ground (arith, h), omega arith, by)
        ]
