-- ===== src/Server/Keys/Keystore/Reopened.antt =====
-- src/relayserver/KeyManager.ts: what a manager that is opened again manages.
use rif_relay.Base.{
  Option, Text, ap, arith, if◌then◌else◌, none, refl, some, sym, text_eq_refl, ℕ, ◌∙◌, ◌≡◌,
}
use rif_relay.Base.Dict.{get, get-put}
use rif_relay.Base.Exec.{>>=-eq-ok, >>=-ok, ok, pure-eq-ok, ◌>>=◌}
use rif_relay.Common.Hex.Bytes.{IsBytes, byte_digits, bytes_of-byte_digits}
use rif_relay.Server.Keys.{Keys, generate_keys}
use rif_relay.Server.Keys.Keystore.{
  KeyFiles, KeystoreEnv, create_seed, draw_seed, keystore_path, open_keys, seed_for, seed_from,
  seed_json, seed_of_file, stored_seed,
}

-- What is relied on: seeds are bytes, and `JSON.parse` reads the seed of an object that has only this.
pub record IsKeystoreEnv (env : KeystoreEnv) : Type 0 where
  pub draws_bytes : (n : ℕ) → IsBytes (env.drawn_seed n)
  pub reads_seed :
      (seed : Text)
      → IsBytes seed
      → env.seed_in (seed_json (byte_digits seed)) ≡ ok (byte_digits seed)

module _ (env : KeystoreEnv) (law : IsKeystoreEnv env) (w : Text) where
  seed_from-kept :
      (found : Option Text) (s s' : KeyFiles) (seed : Text)
      → get (keystore_path w) s.key_files ≡ found
      → seed_from env w found s ≡ (ok seed, s')
      → (t : Text) × (get (keystore_path w) s'.key_files ≡ some t) × (seed_of_file env t ≡ ok seed)
  unfolding seed_from create_seed draw_seed ◌>>=◌ seed_of_file
  seed_from-kept none s s' seed e h =
      let drawn = env.drawn_seed s.draws in
      let (same, ended) = pure-eq-ok h in
      (
        seed_json (byte_digits drawn),
        ap (λ k. get (keystore_path w) k.key_files) (sym ended)
            ∙ get-put (keystore_path w) (keystore_path w) (seed_json (byte_digits drawn))
                s.key_files
            ∙ ap
                (λ b.
                  if b
                  then some (seed_json (byte_digits drawn))
                  else get (keystore_path w) s.key_files)
                (text_eq_refl (keystore_path w)),
        ground (arith, law.reads_seed drawn (law.draws_bytes s.draws))
            ∙ ap ok (bytes_of-byte_digits drawn (law.draws_bytes s.draws) ∙ same),
      )
  seed_from-kept (some t) s s' seed e h =
      (t, ap (λ k. get (keystore_path w) k.key_files) (sym (ap (λ p. p.1) h)) ∙ e, ap (λ p. p.0) h)

  -- A manager that was opened over a directory is opened again, with whatever number of keys, as long as
  -- the file is as it was left, and then derives its keys from the same seed and leaves all as it is.
  pub open_keys-again :
      (count : ℕ) (s s' : KeyFiles) (keys : Keys)
      → open_keys env count (some w) none s ≡ (ok keys, s')
      → (seed : Text) × (keys ≡ generate_keys (env.derive seed) count)
        × ((again : KeyFiles) (more : ℕ)
            → get (keystore_path w) again.key_files ≡ get (keystore_path w) s'.key_files
            → open_keys env more (some w) none again
              ≡ (ok (generate_keys (env.derive seed) more), again))
  unfolding open_keys seed_for stored_seed seed_from
  open_keys-again count s s' keys h =
      let (seed, e, h1) = >>=-eq-ok _ _ s h in
      let (same, ended) = pure-eq-ok h1 in
      let (t, found, reads) = seed_from-kept (get (keystore_path w) s.key_files) s _ seed refl e in
      (
        seed,
        sym same,
        λ again more kept_file.
            let there =
              kept_file ∙ ap (λ k. get (keystore_path w) k.key_files) (sym ended) ∙ found in
            >>=-ok (stored_seed env w) _ again
              (ap (λ o. seed_from env w o again) there ∙ ap (λ r. (r, again)) reads) refl,
      )
