-- ===== src/Server/Keys/Keystore.antt =====
-- src/relayserver/KeyManager.ts: the constructor, which reads the seed from its file or creates it. The
-- files are texts by path; `JSON.parse` and what `Wallet.generate` draws are parameters.
pub mod Reopened
use rif_relay.Base.{Option, Text, codes, none, some, ℕ, ◌++◌, ◌+◌}
use rif_relay.Base.Dict.{Dict, get, put}
use rif_relay.Base.Exec.{Exec, Result, err, modify, ok, pure, raise, seed_and_workdir, ◌>>=◌, ◌>>◌}
use rif_relay.Common.Hex.Bytes.{byte_digits, bytes_of}
use rif_relay.Server.Keys.{Keys, Wallet, generate_keys}

-- `JSON.parse(t).seed` of a file, the seeds that are drawn one after the other, and the wallets of a
-- seed.
pub record KeystoreEnv : Type 0 where
  pub seed_in : Text → Result Text
  pub drawn_seed : ℕ → Text
  pub derive : (seed : Text) → ℕ → Wallet

pub record KeyFiles : Type 0 where
  pub key_files : Dict Text
  pub draws : ℕ

abbrev pub keystore_path : (workdir : Text) → Text
keystore_path workdir = workdir ++ codes "/keystore"

-- `JSON.stringify({ seed })`.
abbrev pub seed_json : Text → Text
seed_json hex = codes "{\"seed\":\"" ++ hex ++ codes "\"}"

module _ (env : KeystoreEnv) where
  unfoldable pub draw_seed : Exec KeyFiles Text
  draw_seed s = (ok (env.drawn_seed s.draws), record s { draws = s.draws + 1 })

  unfoldable pub create_seed : (workdir : Text) → Exec KeyFiles Text
  create_seed workdir = do
    seed ← draw_seed
    modify (λ s. record s {
      key_files = put (keystore_path workdir) (seed_json (byte_digits seed)) s.key_files;
    })
    pure seed

  unfoldable pub seed_of_file : Text → Result Text
  seed_of_file t = elim (env.seed_in t) [ err e ↦ err e | ok hex ↦ ok (bytes_of hex) ]

  unfoldable pub seed_from : (workdir : Text) → (found : Option Text) → Exec KeyFiles Text
  seed_from workdir none s = create_seed workdir s
  seed_from workdir (some t) s = (seed_of_file t, s)

  unfoldable pub stored_seed : (workdir : Text) → Exec KeyFiles Text
  stored_seed workdir s = seed_from workdir (get (keystore_path workdir) s.key_files) s

  -- A work directory and a seed are not given both.
  unfoldable pub seed_for : (workdir seed : Option Text) → Exec KeyFiles Text
  seed_for (some w) (some seed) = raise seed_and_workdir
  seed_for (some w) none = stored_seed w
  seed_for none (some seed) = pure seed
  seed_for none none = draw_seed

  unfoldable pub open_keys : (count : ℕ) → (workdir seed : Option Text) → Exec KeyFiles Keys
  open_keys count workdir seed = do
    chosen ← seed_for workdir seed
    pure (generate_keys (env.derive chosen) count)
