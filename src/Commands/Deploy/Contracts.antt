-- ===== src/Commands/Deploy/Contracts.antt =====
-- src/cli/CommandsLogic.ts: the contracts that a deployment is meant to leave.
pub mod Deployed
use rif_relay.Base.{All, List, Option, Text, [], codes, none, refl, some, ◌++◌, ◌∷◌, ◌≡◌}
use rif_relay.Commands.Deploy.{
  Argument, Creation, DeployOptions, DeployState, address_argument, hub_arguments,
}
use rif_relay.Common.Utils.{Address}
use rif_relay.Config.Files.{Deployment}

-- A creation behind the others, unless the contract is given.
abbrev pub add : Option Address → Creation → List Creation → List Creation
add none c cs = cs ++ c ∷ []
add (some a) c cs = cs

-- The creations of a deployment in order, with the addresses that it returned.
pub created : List (Option Address × Creation) → List Creation → List Creation
created [] cs = cs
created ((g, c) ∷ needed) cs = created needed (add g c cs)

abbrev pub at_with : (contract : Text) → List Argument → Address → Creation
at_with contract arguments a = record {
  contract_name = contract;
  constructor_arguments = arguments;
  created_at = a;
}

-- Each contract that a deployment needs, with the addresses of the deployment as its arguments.
pub contracts : DeployOptions → Deployment Address → List (Option Address × Creation)
contracts options d =
    let g = options.given in
    (g.penalizer, at_with (codes "Penalizer") [] d.penalizer)
    ∷ (g.smart_wallet_template, at_with (codes "SmartWallet") [] d.smart_wallet_template)
    ∷ (
      g.smart_wallet_factory,
      at_with (codes "SmartWalletFactory") (address_argument d.smart_wallet_template ∷ [])
          d.smart_wallet_factory,
    )
    ∷ (
      g.custom_smart_wallet_template,
      at_with (codes "CustomSmartWallet") [] d.custom_smart_wallet_template,
    )
    ∷ (
      g.custom_smart_wallet_factory,
      at_with (codes "CustomSmartWalletFactory")
          (address_argument d.custom_smart_wallet_template ∷ []) d.custom_smart_wallet_factory,
    )
    ∷ (g.relay_hub, at_with (codes "RelayHub") (hub_arguments options d.penalizer) d.relay_hub)
    ∷ (g.version_registry, at_with (codes "VersionRegistry") [] d.version_registry)
    ∷ (
      g.deploy_verifier,
      at_with (codes "DeployVerifier") (address_argument d.smart_wallet_factory ∷ [])
          d.deploy_verifier,
    )
    ∷ (
      g.custom_smart_wallet_deploy_verifier,
      at_with (codes "CustomSmartWalletDeployVerifier")
          (address_argument d.custom_smart_wallet_factory ∷ [])
          d.custom_smart_wallet_deploy_verifier,
    )
    ∷ (
      g.relay_verifier,
      at_with (codes "RelayVerifier") (address_argument d.smart_wallet_factory ∷ [])
          d.relay_verifier,
    )
    ∷ (
      g.custom_smart_wallet_relay_verifier,
      at_with (codes "RelayVerifier") (address_argument d.custom_smart_wallet_factory ∷ [])
          d.custom_smart_wallet_relay_verifier,
    )
    ∷ []

pub created-append :
    (needed more : List (Option Address × Creation)) (cs : List Creation)
    → created (needed ++ more) cs ≡ created more (created needed cs)
unfolding created
created-append [] more cs = refl
created-append ((g, c) ∷ needed) more cs = created-append needed more (add g c cs)

-- A given contract is at the address that was given.
pub IsGivenAt : Option Address × Creation → Type 0
IsGivenAt (g, c) = (a : Address) → g ≡ some a → c.created_at ≡ a

-- The version of the hub that is added to the registry.
pub named : Option Text → Address → List (Text × Text × Address)
named none hub = []
named (some id) hub = (id, codes "1", hub) ∷ []

-- The contracts that a deployment leaves, the version it added, and the configuration it set.
pub IsDeployed : DeployOptions → (s s' : DeployState) → Deployment Address → Type 0
IsDeployed options s s' d =
    (s'.creations ≡ created (contracts options d) s.creations)
    × All IsGivenAt (contracts options d)
    × (s'.added_versions ≡ s.added_versions ++ named options.registry_hub_id d.relay_hub)
    × (s'.config_hub ≡ d.relay_hub)
    × (s'.config_deploy_verifier ≡ d.deploy_verifier)
    × (s'.config_relay_verifier ≡ d.relay_verifier)
