-- ===== src/Server/Store/Unique.antt =====
-- The unique indexes of the table: no two documents share a key, whatever is written.
use rif_relay.Base.{
  Bool, Bool-cases, Option, [], any, any-append, arith, false, filter, inl, inr, none, refl, some,
  text_eq_iff, ◌++◌, ◌||◌, ◌∷◌, ◌≡◌,
}
use rif_relay.Server.Store.{Docs, clash, replace, same_nonce_signer, without}
use rif_relay.Server.Stored.{NonceSigner, StoredTx}

abbrev pub Unique : Docs → Type 0
Unique [] = Unit
Unique (x ∷ xs) = (any (clash x) xs ≡ false) × Unique xs

pub same_nonce_signer_comm :
    (a b : Option NonceSigner) → same_nonce_signer a b ≡ same_nonce_signer b a
same_nonce_signer_comm none none = refl
same_nonce_signer_comm none (some b) = refl
same_nonce_signer_comm (some a) none = refl
same_nonce_signer_comm (some a) (some b) =
    ground (arith, text_eq_iff a.signer b.signer, text_eq_iff b.signer a.signer)

clash_comm : (t u : StoredTx) → clash t u ≡ clash u t
clash_comm t u = ground (
  arith,
  text_eq_iff t.tx_id u.tx_id,
  text_eq_iff u.tx_id t.tx_id,
  same_nonce_signer_comm t.nonce_signer u.nonce_signer,
)

any-clash-append :
    (x t : StoredTx) (ds : Docs)
    → any (clash x) ds ≡ false
    → clash t x ≡ false
    → any (clash x) (ds ++ t ∷ []) ≡ false
any-clash-append x t ds h k = ground (arith, any-append (clash x) ds (t ∷ []), clash_comm x t)

pub append-Unique :
    (t : StoredTx) (ds : Docs) → any (clash t) ds ≡ false → Unique ds → Unique (ds ++ t ∷ [])
append-Unique t [] h u = (refl, tt)
append-Unique t (x ∷ xs) h u =
    (any-clash-append x t xs u.0 (ground arith), append-Unique t xs (ground arith) u.1)

any-replace :
    (x t : StoredTx) (q : StoredTx → Bool) (ds : Docs)
    → any (clash x) ds ≡ false
    → clash t x ≡ false
    → any (clash x) (replace q t ds) ≡ false
any-replace x t q [] h k = refl
any-replace x t q (y ∷ ys) h k = ground (arith, clash_comm x t, any-replace x t q ys)

pub replace-Unique :
    (q : StoredTx → Bool) (t : StoredTx) (ds : Docs)
    → any (clash t) (without q ds) ≡ false
    → Unique ds
    → Unique (replace q t ds)
replace-Unique q t [] h u = tt
replace-Unique q t (x ∷ xs) h u = elim (Bool-cases (q x)) [
  | inl e ↦ rw e (rw e at h, u.1)
  | inr e ↦
      let h' : (clash t x || any (clash t) (without q xs)) ≡ false = rw e at h in
      rw e (any-replace x t q xs u.0 (ground arith), replace-Unique q t xs (ground arith) u.1)
]

any-filter-false :
    (p q : StoredTx → Bool) (ds : Docs) → any q ds ≡ false → any q (filter p ds) ≡ false
any-filter-false p q [] h = refl
any-filter-false p q (x ∷ xs) h = ground (arith, any-filter-false p q xs)

pub filter-Unique : (p : StoredTx → Bool) (ds : Docs) → Unique ds → Unique (filter p ds)
filter-Unique p [] u = tt
filter-Unique p (x ∷ xs) u =
    ground (arith, any-filter-false p (clash x) xs u.0, filter-Unique p xs u.1)
