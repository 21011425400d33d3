-- ===== src/Server/Store.antt =====
-- src/relayserver/TxStoreManager.ts. The nedb table is a parameter, `Datastore`, over the list of
-- the stored documents; `IsDatastore` states what its documentation promises.
pub mod Unique
pub mod Laws
use rif_relay.Base.{
  Bool, List, Option, Text, [], any, false, filter, find, holds, if◌then◌else◌, is_some, leb, none,
  not, some, text_eq, to_lower, true, ℕ, ◌&&◌, ◌++◌, ◌==◌, ◌||◌, ◌∷◌, ◌≡◌,
}
use rif_relay.Base.Exec.{
  Exec, Result, err, gets, invalid_tx, ok, require, unique_violated, ◌>>=◌, ◌>>◌,
}
use rif_relay.Base.Sort.{insert, sort}
use rif_relay.Common.Utils.{Address, is_same_address}
use rif_relay.Server.Stored.{NonceSigner, ServerAction, StoredTx, action_eq}

abbrev pub Docs : Type 0
Docs = List StoredTx

abbrev pub same_nonce_signer : Option NonceSigner → Option NonceSigner → Bool
same_nonce_signer none none = true
same_nonce_signer (some a) (some b) = (a.nonce == b.nonce) && text_eq a.signer b.signer
same_nonce_signer _ _ = false

-- Two documents with one key in an index that `ensureIndex` made unique.
abbrev pub clash : StoredTx → StoredTx → Bool
clash t u = text_eq t.tx_id u.tx_id || same_nonce_signer t.nonce_signer u.nonce_signer

pub record Datastore : Type 0 where
  pub find_all : (StoredTx → Bool) → Docs → Docs
  pub find_one : (StoredTx → Bool) → Docs → Option StoredTx
  pub insert : StoredTx → Docs → Result Docs
  pub update : (StoredTx → Bool) → StoredTx → Docs → Result Docs
  pub remove : (StoredTx → Bool) → Docs → Docs

-- `$set` on the first match: every field of the modelled document is given.
abbrev pub replace : (StoredTx → Bool) → StoredTx → Docs → Docs
replace q t [] = []
replace q t (x ∷ xs) = if q x then t ∷ xs else x ∷ replace q t xs

abbrev pub without : (StoredTx → Bool) → Docs → Docs
without q [] = []
without q (x ∷ xs) = if q x then xs else x ∷ without q xs

-- What nedb documents: queries return the documents that match, a write that would repeat a key
-- of a unique index is refused and changes nothing.
pub record IsDatastore (d : Datastore) : Type 0 where
  pub find_all_lem : (q : StoredTx → Bool) (ds : Docs) → d.find_all q ds ≡ filter q ds
  pub find_one_lem : (q : StoredTx → Bool) (ds : Docs) → d.find_one q ds ≡ find q ds
  pub insert_lem :
      (t : StoredTx) (ds : Docs)
      → d.insert t ds ≡ (if any (clash t) ds then err unique_violated else ok (ds ++ t ∷ []))
  pub update_lem :
      (q : StoredTx → Bool) (t : StoredTx) (ds : Docs)
      → any q ds ≡ true
      → d.update q t ds
        ≡ (if any (clash t) (without q ds) then err unique_violated else ok (replace q t ds))
  pub remove_lem : (q : StoredTx → Bool) (ds : Docs) → d.remove q ds ≡ filter (λ x. not (q x)) ds

-- The guard of `putTx`. (A typed document always has a nonce.)
is_storable : StoredTx → Bool
is_storable tx = not (text_eq tx.tx_id [] || (tx.attempts == 0))

-- `tx1` of `putTx`.
unfoldable pub stored_form : StoredTx → StoredTx
stored_form tx = record tx {
  tx_id = to_lower tx.tx_id;
  nonce_signer = some (record { nonce = tx.nonce; signer = to_lower tx.from });
}

abbrev has_nonce_signer : StoredTx → StoredTx → Bool
has_nonce_signer tx u = same_nonce_signer u.nonce_signer tx.nonce_signer

abbrev pub has_key : Address → ℕ → StoredTx → Bool
has_key signer nonce u =
    same_nonce_signer u.nonce_signer (some (record { nonce = nonce; signer = to_lower signer }))

-- Documents of a signer with a nonce up to `nonce`.
abbrev pub until_nonce : Address → ℕ → StoredTx → Bool
until_nonce signer nonce t =
    holds (λ k. leb k.nonce nonce && text_eq k.signer (to_lower signer)) t.nonce_signer

abbrev by_nonce : StoredTx → StoredTx → Bool
by_nonce a b = leb a.nonce b.nonce

abbrev is_pending : ServerAction → Option Address → StoredTx → Bool
is_pending action destination it =
    not (is_some it.mined_block)
    && action_eq it.action action
    && (not (is_some destination) || holds (λ a. is_same_address it.to a) destination)

-- A refused write rejects the promise and leaves the table as it was.
abbrev pub save : Result Docs → Exec Docs (Unit {0})
save (ok ds') ds = (ok tt, ds')
save (err e) ds = (err e, ds)

module _ (d : Datastore) where
  -- `existing && updateExisting`: an update of the document found, else an insertion.
  write : StoredTx → Bool → Option StoredTx → Exec Docs (Unit {0})
  write tx1 true (some existing) ds =
      save (d.update (λ u. text_eq u.tx_id existing.tx_id) tx1 ds) ds
  write tx1 _ _ ds = save (d.insert tx1 ds) ds

  unfoldable pub put_tx : StoredTx → Bool → Exec Docs (Unit {0})
  unfolding is_storable write
  put_tx tx update_existing = do
    require (is_storable tx) invalid_tx
    let tx1 = stored_form tx
    existing ← gets (d.find_one (has_nonce_signer tx1))
    write tx1 update_existing existing

  unfoldable pub get_tx_by_nonce : Address → ℕ → Docs → Option StoredTx
  get_tx_by_nonce signer nonce = d.find_one (has_key signer nonce)

  unfoldable pub get_tx_by_id : Text → Docs → Option StoredTx
  get_tx_by_id id = d.find_one λ u. text_eq u.tx_id (to_lower id)

  unfoldable pub get_txs_until_nonce : Address → ℕ → Docs → Docs
  get_txs_until_nonce signer nonce = d.find_all (until_nonce signer nonce)

  unfoldable pub remove_txs_until_nonce : Address → ℕ → Docs → Docs
  remove_txs_until_nonce signer nonce = d.remove (until_nonce signer nonce)

  unfoldable pub clear_all : Docs → Docs
  clear_all = d.remove λ _. true

  unfoldable pub get_all_by_signer : Address → Docs → Docs
  get_all_by_signer signer ds =
      sort by_nonce
        (d.find_all (λ t. holds (λ k. text_eq k.signer (to_lower signer)) t.nonce_signer) ds)

  unfoldable pub get_all : Docs → Docs
  get_all ds = sort by_nonce (d.find_all (λ _. true) ds)

  unfoldable pub is_action_pending : ServerAction → Option Address → Docs → Bool
  unfolding get_all
  is_action_pending action destination ds =
      is_some (find (is_pending action destination) (get_all ds))
