-- ===== src/Commands/Deploy.antt =====
-- src/cli/CommandsLogic.ts: the deployment of the contracts, and the search for an account that can
-- pay. The node's answers and the lines that the user types are parameters.
pub mod Contracts
use rif_relay.Base.{
  Bool, List, Option, Text, [], codes, if◌then◌else◌, leb, none, or_else, some, text_eq, ℕ, ◌++◌,
  ◌+◌, ◌∷◌,
}
use rif_relay.Base.Exec.{
  Exec, Result, err, modify, never_settles, no_funded_account, ok, pure, user_rejected, ◌>>=◌, ◌>>◌,
}
use rif_relay.Common.Utils.{Address}
use rif_relay.Config.Client.{RelayHubConfiguration}
use rif_relay.Config.Files.{Deployment}

-- An argument of a constructor.
pub data Argument : Type 0 where
  address_argument : Address → Argument
  count_argument : ℕ → Argument
  amount_argument : Text → Argument

-- A deployment that was sent: its contract, the arguments, and where the contract is.
pub record Creation : Type 0 where
  pub contract_name : Text
  pub constructor_arguments : List Argument
  pub created_at : Address

pub record DeployOptions : Type 0 where
  pub deployer : Address
  pub deploy_gas_price : Option Text
  pub given : Deployment (Option Address)
  pub registry_hub_id : Option Text
  pub skip_confirmation : Bool
  pub hub_configuration : RelayHubConfiguration

-- Each answer depends on how many requests were made before.
pub record DeployEnv : Type 0 where
  pub estimate_creation : (contract : Text) → List Argument → ℕ → Result ℕ
  pub create :
      (contract : Text)
      → List Argument
      → (from : Address) → (gas_price : Text) → (gas : ℕ) → ℕ
      → Result Address
  pub register_version : (id version : Text) → (value : Address) → ℕ → Result (Unit {0})
  pub unlocked_accounts : ℕ → Result (List Address)
  pub account_balance : Address → ℕ → Result ℕ

-- The lines that are still to be typed, what was created, the versions that were added, and the hub
-- and the deploy and relay verifiers of the configuration.
pub record DeployState : Type 0 where
  pub made : ℕ
  pub typed : List Text
  pub creations : List Creation
  pub added_versions : List (Text × Text × Address)
  pub config_hub : Address
  pub config_deploy_verifier : Address
  pub config_relay_verifier : Address

abbrev ask_node : {A : Type 0} → (ℕ → Result A) → Exec DeployState A
ask_node r s = (r s.made, record s { made = s.made + 1 })

-- The loop ends with the first yes or no. Where neither is typed, it does not end.
unfoldable pub confirm_from : List Text → Result (Unit {0}) × List Text
confirm_from [] = (err never_settles, [])
confirm_from (line ∷ lines) =
    let rest = confirm_from lines in
    if text_eq line (codes "yes")
    then (ok tt, lines)
    else if text_eq line (codes "no")
    then (err user_rejected, lines)
    else rest

unfoldable pub confirm : Exec DeployState (Unit {0})
confirm s = let (r, lines) = confirm_from s.typed in (r, record s { typed = lines })

unfoldable pub hub_arguments : DeployOptions → (penalizer : Address) → List Argument
hub_arguments options penalizer =
    let hub = options.hub_configuration in
    address_argument penalizer
    ∷ count_argument hub.max_worker_count
    ∷ amount_argument hub.minimum_entry_deposit_value
    ∷ count_argument hub.minimum_unstake_delay
    ∷ amount_argument hub.minimum_stake
    ∷ []

module _ (env : DeployEnv) (options : DeployOptions) where
  -- The contract is sent with a gas limit of 5e6, whatever was estimated.
  abbrev send_creation : (contract : Text) → List Argument → Exec DeployState Address
  send_creation contract arguments = do
    a ← ask_node (
        env.create contract arguments options.deployer
          (or_else options.deploy_gas_price (codes "1000000000")) 5000000)
    modify (λ s. record s {
      creations =
          s.creations
          ++ record { contract_name = contract; constructor_arguments = arguments; created_at = a }
            ∷ [];
    })
    pure a

  -- A given contract is taken as it is.
  unfoldable pub get_contract :
      (contract : Text) → List Argument → Option Address → Exec DeployState Address
  get_contract contract arguments (some a) s = (ok a, s)
  get_contract contract arguments none s =
      (do
        _ ← ask_node (env.estimate_creation contract arguments)
        _ ← (if options.skip_confirmation then pure tt else confirm)
        send_creation contract arguments)
        s

  -- The hub as version 1 of the registry's id, if one is given.
  unfoldable pub note_version : Option Text → (hub : Address) → Exec DeployState (Unit {0})
  note_version none hub = pure tt
  note_version (some id) hub = do
    _ ← ask_node (env.register_version id (codes "1") hub)
    modify (λ s. record s { added_versions = s.added_versions ++ (id, codes "1", hub) ∷ [] })

  unfoldable pub deploy_contracts : Exec DeployState (Deployment Address)
  deploy_contracts = do
    let g = options.given
    penalizer ← get_contract (codes "Penalizer") [] g.penalizer
    wallet ← get_contract (codes "SmartWallet") [] g.smart_wallet_template
    factory ←
        get_contract (codes "SmartWalletFactory") (address_argument wallet ∷ [])
          g.smart_wallet_factory
    custom_wallet ← get_contract (codes "CustomSmartWallet") [] g.custom_smart_wallet_template
    custom_factory ←
        get_contract (codes "CustomSmartWalletFactory") (address_argument custom_wallet ∷ [])
          g.custom_smart_wallet_factory
    hub ← get_contract (codes "RelayHub") (hub_arguments options penalizer) g.relay_hub
    registry ← get_contract (codes "VersionRegistry") [] g.version_registry
    _ ← note_version options.registry_hub_id hub
    deploy ← get_contract (codes "DeployVerifier") (address_argument factory ∷ []) g.deploy_verifier
    custom_deploy ←
        get_contract (codes "CustomSmartWalletDeployVerifier")
          (address_argument custom_factory ∷ []) g.custom_smart_wallet_deploy_verifier
    relay ← get_contract (codes "RelayVerifier") (address_argument factory ∷ []) g.relay_verifier
    custom_relay ←
        get_contract (codes "RelayVerifier") (address_argument custom_factory ∷ [])
          g.custom_smart_wallet_relay_verifier
    _ ← modify (λ s. record s {
      config_hub = hub;
      config_deploy_verifier = deploy;
      config_relay_verifier = relay;
    })
    pure record {
      relay_hub = hub;
      penalizer = penalizer;
      smart_wallet_template = wallet;
      smart_wallet_factory = factory;
      version_registry = registry;
      relay_verifier = relay;
      deploy_verifier = deploy;
      custom_smart_wallet_template = custom_wallet;
      custom_smart_wallet_factory = custom_factory;
      custom_smart_wallet_deploy_verifier = custom_deploy;
      custom_smart_wallet_relay_verifier = custom_relay;
    }

module _ (env : DeployEnv) where
  -- The first account whose balance is enough; an error of the node ends the search as if there was
  -- none.
  unfoldable pub first_wealthy : (required : ℕ) → List Address → Exec DeployState Address
  first_wealthy required [] s = (err no_funded_account, s)
  first_wealthy required (a ∷ accounts) s =
      let (b, s') = ask_node (env.account_balance a) s in
      let rest = first_wealthy required accounts s' in
      elim b [
        | err e ↦ (err no_funded_account, s')
        | ok balance ↦ if leb required balance then (ok a, s') else rest
      ]

  unfoldable pub find_wealthy_account : (required : ℕ) → Exec DeployState Address
  find_wealthy_account required s = elim (env.unlocked_accounts s.made) [
    | err e ↦ (err no_funded_account, record s { made = s.made + 1 })
    | ok accounts ↦ first_wealthy required accounts (record s { made = s.made + 1 })
  ]
