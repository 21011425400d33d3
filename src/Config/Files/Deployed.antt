-- ===== src/Config/Files/Deployed.antt =====
-- src/cli/utils.ts: what is loaded of a saved deployment.
use mathlib.Core.Option
use rif_relay.Base.{
  All, Option, Text, [], any, ap, arith, codes, false, ltb, map, none, refl, some, starts_with,
  text_eq, ◌++◌, ◌==◌, ◌||◌, ◌∙◌, ◌∷◌, ◌≡◌,
}
use rif_relay.Base.Dict.{All-get, Dict, IsDistinct, get, get-overlay, or_get, overlay}
use rif_relay.Base.Exec.{>>=-ok, ok, ◌>>=◌}
use rif_relay.Config.Files.{
  Deployment, FileEnv, Files, address_json, get_address_from_file, load_address, load_deployment,
  save_contract_to_file, save_deployment,
}

-- A file's name without directories.
pub IsPlain : Text → Type 0
IsPlain name = (any (λ c. c == 47) name ≡ false) × (starts_with (codes ".") name ≡ false)

-- A text that JSON writes as it is.
unfoldable pub IsBare : Text → Type 0
IsBare t = any (λ c. c == 34 || c == 92 || ltb c 32) t ≡ false

-- `path.join` keeps the names of a directory apart, and `JSON.parse` reads the address of an object
-- that has only this.
pub record IsFileEnv (env : FileEnv) : Type 0 where
  pub joins_apart :
      (w m n : Text)
      → IsPlain m
      → IsPlain n
      → text_eq (env.join_path w m) (env.join_path w n) ≡ text_eq m n
  pub reads_address : (a : Text) → IsBare a → env.address_in (address_json env a) ≡ ok (some a)

-- The names of the files with their addresses, in the order in which they are written.
unfoldable pub rows : Deployment Text → Dict Text
rows d =
    (codes "Penalizer.json", d.penalizer)
    ∷ (codes "RelayHub.json", d.relay_hub)
    ∷ (codes "RelayVerifier.json", d.relay_verifier)
    ∷ (codes "DeployVerifier.json", d.deploy_verifier)
    ∷ (codes "SmartWallet.json", d.smart_wallet_template)
    ∷ (codes "SmartWalletFactory.json", d.smart_wallet_factory)
    ∷ (codes "VersionRegistry.json", d.version_registry)
    ∷ (codes "CustomSmartWallet.json", d.custom_smart_wallet_template)
    ∷ (codes "CustomSmartWalletFactory.json", d.custom_smart_wallet_factory)
    ∷ (codes "CustomSmartWalletDeployVerifier.json", d.custom_smart_wallet_deploy_verifier)
    ∷ (codes "CustomSmartWalletRelayVerifier.json", d.custom_smart_wallet_relay_verifier)
    ∷ []

module _ (env : FileEnv) (w : Text) where
  paths : Dict Text → Files
  paths m = map (λ e. (env.join_path w e.0, address_json env e.1)) m

  get-paths-none :
      (p : Text) (m : Dict Text)
      → any (λ e. text_eq (env.join_path w e.0) p) m ≡ false
      → get p (paths m) ≡ none
  unfolding paths get
  get-paths-none p [] e = refl
  get-paths-none p ((j, a) ∷ m) e = ground (arith, e, get-paths-none p m)

module _ (env : FileEnv) (law : IsFileEnv env) (w : Text) where
  get-paths :
      (n : Text) (m : Dict Text)
      → IsPlain n
      → All (λ e. IsPlain e.0) m
      → get (env.join_path w n) (paths env w m) ≡ Option.map (address_json env) (get n m)
  unfolding paths get
  get-paths n [] p all = refl
  get-paths n ((j, a) ∷ m) p (q, all) =
      ground (arith, law.joins_apart w j n q p, get-paths n m p all)

  paths-IsDistinct :
      (m : Dict Text) → All (λ e. IsPlain e.0) m → IsDistinct m → IsDistinct (paths env w m)
  unfolding paths IsDistinct
  paths-IsDistinct [] all d = tt
  paths-IsDistinct ((j, a) ∷ m) (q, all) (fresh, d) =
      (get-paths j m q all ∙ ap (Option.map (address_json env)) fresh, paths-IsDistinct m all d)

  load_address-paths :
      (name a : Text) (m : Dict Text) (files : Files)
      → IsPlain (name ++ codes ".json")
      → All (λ e. IsPlain e.0) m
      → IsDistinct m
      → get (name ++ codes ".json") m ≡ some a
      → IsBare a
      → load_address env w name (overlay files (paths env w m))
        ≡ (ok (some a), overlay files (paths env w m))
  unfolding load_address get_address_from_file
  load_address-paths name a m files p all d e bare =
      let found : get (env.join_path w (name ++ codes ".json")) (overlay files (paths env w m))
          ≡ some (address_json env a) =
        get-overlay _ files (paths env w m) (paths-IsDistinct m all d)
        ∙ ap (λ o. or_get o (get (env.join_path w (name ++ codes ".json")) files))
            (get-paths _ m p all ∙ ap (Option.map (address_json env)) e) in
      ground (arith, found, law.reads_address a bare)

-- Every address was found.
pub found_all : Deployment Text → Deployment (Option Text)
found_all d = record {
  relay_hub = some d.relay_hub;
  penalizer = some d.penalizer;
  smart_wallet_template = some d.smart_wallet_template;
  smart_wallet_factory = some d.smart_wallet_factory;
  version_registry = some d.version_registry;
  relay_verifier = some d.relay_verifier;
  deploy_verifier = some d.deploy_verifier;
  custom_smart_wallet_template = some d.custom_smart_wallet_template;
  custom_smart_wallet_factory = some d.custom_smart_wallet_factory;
  custom_smart_wallet_deploy_verifier = some d.custom_smart_wallet_deploy_verifier;
  custom_smart_wallet_relay_verifier = some d.custom_smart_wallet_relay_verifier;
}

module _ (env : FileEnv) (w : Text) (d : Deployment Text) where
  save_deployment-rows :
      (files : Files)
      → save_deployment env d w files ≡ (ok tt, overlay files (paths env w (rows d)))
  unfolding save_deployment ◌>>=◌ save_contract_to_file overlay paths rows
  save_deployment-rows files = refl

  rows-IsPlain : All (λ e. IsPlain e.0) (rows d)
  unfolding rows IsPlain rif_relay.Base.Strings.starts_with
  rows-IsPlain = ground arith

  rows-IsDistinct : IsDistinct (rows d)
  unfolding rows IsDistinct get rif_relay.Base.Strings.text_eq
  rows-IsDistinct = ground arith

  load_row :
      (name a : Text) (files : Files)
      → IsFileEnv env
      → All (λ e. IsBare e.1) (rows d)
      → get (name ++ codes ".json") (rows d) ≡ some a
      → load_address env w name (overlay files (paths env w (rows d)))
        ≡ (ok (some a), overlay files (paths env w (rows d)))
  load_row name a files law bare e =
      load_address-paths env law w name a (rows d) files
        (All-get (λ e. IsPlain e.0) _ (rows d) a rows-IsPlain e) rows-IsPlain rows-IsDistinct e
        (All-get (λ e. IsBare e.1) _ (rows d) a bare e)

  -- What a deployment was saved as is loaded again, with every address, if none needs an escape in
  -- JSON, and the saving leaves all other files alone.
  pub load_deployment-save_deployment :
      (files : Files)
      → IsFileEnv env
      → All (λ e. IsBare e.1) (rows d)
      → (saved : Files) × (save_deployment env d w files ≡ (ok tt, saved))
        × (load_deployment env w saved ≡ (ok (found_all d), saved))
        × ((p : Text)
            → any (λ e. text_eq (env.join_path w e.0) p) (rows d) ≡ false
            → get p saved ≡ get p files)
  unfolding load_deployment found_all rows get rif_relay.Base.Strings.text_eq
  load_deployment-save_deployment files law bare =
      let saved = overlay files (paths env w (rows d)) in
      let row : (name a : Text)
          → get (name ++ codes ".json") (rows d) ≡ some a
          → load_address env w name saved ≡ (ok (some a), saved) =
        λ name a e. load_row name a files law bare e in
      (
        saved,
        save_deployment-rows files,
        >>=-ok _ _ _ (row (codes "RelayHub") _ refl) (
            >>=-ok _ _ _ (row (codes "Penalizer") _ refl) (
              >>=-ok _ _ _ (row (codes "SmartWallet") _ refl) (
                >>=-ok _ _ _ (row (codes "SmartWalletFactory") _ refl) (
                  >>=-ok _ _ _ (row (codes "VersionRegistry") _ refl) (
                    >>=-ok _ _ _ (row (codes "RelayVerifier") _ refl) (
                      >>=-ok _ _ _ (row (codes "DeployVerifier") _ refl) (
                        >>=-ok _ _ _ (row (codes "CustomSmartWallet") _ refl) (
                          >>=-ok _ _ _ (row (codes "CustomSmartWalletFactory") _ refl) (
                            >>=-ok _ _ _ (row (codes "CustomSmartWalletDeployVerifier") _ refl) (
                              >>=-ok _ _ _ (row (codes "CustomSmartWalletRelayVerifier") _ refl)
                                (refl))))))))))),
        λ p e.
            get-overlay p files _ (paths-IsDistinct env law w (rows d) rows-IsPlain rows-IsDistinct)
            ∙ ap (λ o. or_get o (get p files)) (get-paths-none env w p (rows d) e),
      )
