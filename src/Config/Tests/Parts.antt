-- ===== src/Config/Tests/Parts.antt =====
-- The theorems on the parts of a client and on deployments, at one of each.
use rif_relay.Base.{
  Text, [], any, ap, arith, codes, drop, false, if◌then◌else◌, refl, some, text_eq, true, ◌++◌,
  ◌==◌, ◌∷◌, ◌≡◌,
}
use rif_relay.Base.Dict.{Dict, get}
use rif_relay.Base.Exec.{Result, err, ok}
use rif_relay.Config.{a_number}
use rif_relay.Config.Client.Parts.{Dependency, Overrides, get_dependencies, passed_object}
use rif_relay.Config.Client.Parts.Wired.{get_dependencies-overrides}
use rif_relay.Config.Files.{Deployment, FileEnv, Files, load_deployment, save_deployment}
use rif_relay.Config.Files.Deployed.{
  IsBare, IsFileEnv, found_all, load_deployment-save_deployment, rows,
}
use rif_relay.Config.Tests.{few}

-- A ping filter is passed.
abbrev the_overrides : Overrides
the_overrides = (codes "pingFilter", some (passed_object 4)) ∷ []

abbrev parts_of : Result (Dict Dependency) → Dict Dependency
parts_of (ok parts) = parts
parts_of (err e) = []

abbrev the_parts : Dict Dependency
the_parts = parts_of (get_dependencies (λ i. ok (a_number 33)) few true the_overrides)

get_dependencies-overrides_example :
    (v : Dependency) × (get (codes "pingFilter") the_parts ≡ some v)
    × ((d : Dependency)
        → some (passed_object 4) ≡ some d
        → text_eq (codes "config") (codes "pingFilter") ≡ false
        → v ≡ d)
unfolding get rif_relay.Base.Strings.text_eq rif_relay.Config.Client.Parts.account_manager_of
    rif_relay.Config.Client.Parts.are_known rif_relay.Config.Client.Parts.chain_id_for
    rif_relay.Config.Client.Parts.get_dependencies rif_relay.Config.Client.Parts.interactor_of
    rif_relay.Config.Client.Parts.override_at rif_relay.Config.Client.Parts.wired
    rif_relay.Config.setting_at
get_dependencies-overrides_example =
    get_dependencies-overrides few the_overrides (λ i. ok (a_number 33)) true the_parts refl
      (codes "pingFilter") (some (passed_object 4)) refl

-- What stands before the first quotation mark.
abbrev until_quote : Text → Text
until_quote [] = []
until_quote (c ∷ s) = let rest = until_quote s in if c == 34 then [] else c ∷ rest

until_quote-append : (a s : Text) → IsBare a → until_quote (a ++ 34 ∷ s) ≡ a
unfolding IsBare
until_quote-append [] s h = refl
until_quote-append (c ∷ a) s h = ground (arith, h, until_quote-append a s)

text_eq-append : (w s t : Text) → text_eq (w ++ s) (w ++ t) ≡ text_eq s t
unfolding rif_relay.Base.Strings.text_eq
text_eq-append [] s t = refl
text_eq-append (c ∷ w) s t = ground (arith, text_eq-append w s t)

abbrev the_files : FileEnv
the_files = record {
  join_path = λ w n. w ++ 47 ∷ n;
  address_in = λ t. ok (some (until_quote (drop 14 t)));
}

the_files-IsFileEnv : IsFileEnv the_files
unfolding rif_relay.Base.Strings.text_eq rif_relay.Config.Files.address_json
the_files-IsFileEnv = record {
  joins_apart = λ w m n p q. text_eq-append w (47 ∷ m) (47 ∷ n);
  reads_address = λ a bare. ap (λ t. ok (some t)) (until_quote-append a (codes " }") bare);
}

abbrev the_deployment : Deployment Text
the_deployment = record {
  relay_hub = codes "0x1";
  penalizer = codes "0x2";
  smart_wallet_template = codes "0x3";
  smart_wallet_factory = codes "0x4";
  version_registry = codes "0x5";
  relay_verifier = codes "0x6";
  deploy_verifier = codes "0x7";
  custom_smart_wallet_template = codes "0x8";
  custom_smart_wallet_factory = codes "0x9";
  custom_smart_wallet_deploy_verifier = codes "0xa";
  custom_smart_wallet_relay_verifier = codes "0xb";
}

load_deployment-save_deployment_example :
    (saved : Files) × (save_deployment the_files the_deployment (codes "w") [] ≡ (ok tt, saved))
    × (load_deployment the_files (codes "w") saved ≡ (ok (found_all the_deployment), saved))
    × ((p : Text)
        → any (λ e. text_eq (the_files.join_path (codes "w") e.0) p) (rows the_deployment) ≡ false
        → get p saved ≡ get p [])
unfolding rows IsBare
load_deployment-save_deployment_example =
    load_deployment-save_deployment the_files (codes "w") the_deployment [] the_files-IsFileEnv
      (refl, (refl, (refl, (refl, (refl, (refl, (refl, (refl, (refl, (refl, (refl, tt)))))))))))
