-- ===== src/Config/Files.antt =====
-- src/cli/utils.ts. The files are texts by path; `JSON.parse` and `path.join` are parameters.
pub mod Deployed
use rif_relay.Base.{
  Bool, List, Option, Text, [], codes, filter, if◌then◌else◌, map, none, not, some, starts_with, ℕ,
  ◌++◌, ◌==◌, ◌||◌, ◌∷◌,
}
use rif_relay.Base.Dict.{Dict, get, put}
use rif_relay.Base.Exec.{Exec, Result, err, modify, no_config_file, ok, pure, ◌>>=◌, ◌>>◌}

unfoldable pub networks : Dict Text
networks =
    (codes "localhost", codes "http://127.0.0.1:4444")
    ∷ (codes "development", codes "http://127.0.0.1:4444")
    ∷ (codes "rsktestnet", codes "https://public-node.testnet.rsk.co")
    ∷ (codes "rskmainnet", codes "https://public-node.rsk.co")
    ∷ []

unfoldable pub supported_networks : List Text
unfolding networks
supported_networks = map (λ e. e.0) networks

-- What ends the match of a dot.
ends_line : ℕ → Bool
ends_line c = c == 10 || c == 13 || c == 8232 || c == 8233

line_of : Text → Text
unfolding ends_line
line_of [] = []
line_of (c ∷ s) = let rest = line_of s in if ends_line c then [] else c ∷ rest

-- A known name's URL, or else the name up to its line's end if it is a URL.
unfoldable pub get_network_url : (network : Text) → Option Text
unfolding networks line_of
get_network_url network = elim (get network networks) [
  | some url ↦ some url
  | none ↦
      if starts_with (codes "http://") network || starts_with (codes "https://") network
      then some (line_of network)
      else none
]

abbrev pub Files : Type 0
Files = Dict Text

pub record FileEnv : Type 0 where
  pub join_path : (directory name : Text) → Text
  pub address_in : Text → Result (Option Text)

-- `readFileSync`.
abbrev read_file : (path : Text) → Exec Files Text
read_file path files = elim (get path files) [
  | none ↦ (err no_config_file, files)
  | some t ↦ (ok t, files)
]

-- The words of a mnemonic, without the line breaks.
unfoldable pub get_mnemonic : (mnemonic_file : Option Text) → Exec Files (Option Text)
get_mnemonic none = pure none
get_mnemonic (some path) = do
  words ← read_file path
  pure (some (filter (λ c. not (c == 10 || c == 13)) words))

module _ (env : FileEnv) where
  -- What is parsed of a file, which may lack the address.
  abbrev parse_address : Text → Exec Files (Option Text)
  parse_address t files = (env.address_in t, files)

  unfoldable pub get_address_from_file :
      (path : Text) → (default : Option Text) → Exec Files (Option Text)
  get_address_from_file path (some a) files = (ok (some a), files)
  get_address_from_file path none files = elim (get path files) [
    | none ↦ (ok none, files)
    | some t ↦ parse_address t files
  ]

  -- `getRelayHubAddress` and the others: the file of a contract that was deployed by truffle.
  unfoldable pub get_contract_address :
      (contract : Text) → (default : Option Text) → Exec Files (Option Text)
  get_contract_address contract default =
      get_address_from_file (codes "build/enveloping/" ++ contract ++ codes ".json") default

  unfoldable pub address_json : Text → Text
  address_json a = codes "{ \"address\": \"" ++ a ++ codes "\" }"

  unfoldable pub save_contract_to_file : (address workdir filename : Text) → Exec Files (Unit {0})
  save_contract_to_file address workdir filename =
      modify (put (env.join_path workdir filename) (address_json address))

-- The addresses of a deployment.
pub record Deployment (A : Type 0) : Type 0 where
  pub relay_hub : A
  pub penalizer : A
  pub smart_wallet_template : A
  pub smart_wallet_factory : A
  pub version_registry : A
  pub relay_verifier : A
  pub deploy_verifier : A
  pub custom_smart_wallet_template : A
  pub custom_smart_wallet_factory : A
  pub custom_smart_wallet_deploy_verifier : A
  pub custom_smart_wallet_relay_verifier : A

module _ (env : FileEnv) where
  unfoldable pub save_deployment : Deployment Text → (workdir : Text) → Exec Files (Unit {0})
  save_deployment d workdir = do
    _ ← save_contract_to_file env d.penalizer workdir (codes "Penalizer.json")
    _ ← save_contract_to_file env d.relay_hub workdir (codes "RelayHub.json")
    _ ← save_contract_to_file env d.relay_verifier workdir (codes "RelayVerifier.json")
    _ ← save_contract_to_file env d.deploy_verifier workdir (codes "DeployVerifier.json")
    _ ← save_contract_to_file env d.smart_wallet_template workdir (codes "SmartWallet.json")
    _ ← save_contract_to_file env d.smart_wallet_factory workdir (codes "SmartWalletFactory.json")
    _ ← save_contract_to_file env d.version_registry workdir (codes "VersionRegistry.json")
    _ ←
        save_contract_to_file env d.custom_smart_wallet_template workdir
          (codes "CustomSmartWallet.json")
    _ ←
        save_contract_to_file env d.custom_smart_wallet_factory workdir
          (codes "CustomSmartWalletFactory.json")
    _ ←
        save_contract_to_file env d.custom_smart_wallet_deploy_verifier workdir
          (codes "CustomSmartWalletDeployVerifier.json")
    save_contract_to_file env d.custom_smart_wallet_relay_verifier workdir
        (codes "CustomSmartWalletRelayVerifier.json")

  unfoldable pub load_address : (workdir name : Text) → Exec Files (Option Text)
  load_address workdir name =
      get_address_from_file env (env.join_path workdir (name ++ codes ".json")) none

  -- An address that no file has is undefined.
  unfoldable pub load_deployment : (workdir : Text) → Exec Files (Deployment (Option Text))
  load_deployment workdir = do
    hub ← load_address workdir (codes "RelayHub")
    penalizer ← load_address workdir (codes "Penalizer")
    template ← load_address workdir (codes "SmartWallet")
    factory ← load_address workdir (codes "SmartWalletFactory")
    registry ← load_address workdir (codes "VersionRegistry")
    relay ← load_address workdir (codes "RelayVerifier")
    deploy ← load_address workdir (codes "DeployVerifier")
    custom_template ← load_address workdir (codes "CustomSmartWallet")
    custom_factory ← load_address workdir (codes "CustomSmartWalletFactory")
    custom_deploy ← load_address workdir (codes "CustomSmartWalletDeployVerifier")
    custom_relay ← load_address workdir (codes "CustomSmartWalletRelayVerifier")
    pure record {
      relay_hub = hub;
      penalizer = penalizer;
      smart_wallet_template = template;
      smart_wallet_factory = factory;
      version_registry = registry;
      relay_verifier = relay;
      deploy_verifier = deploy;
      custom_smart_wallet_template = custom_template;
      custom_smart_wallet_factory = custom_factory;
      custom_smart_wallet_deploy_verifier = custom_deploy;
      custom_smart_wallet_relay_verifier = custom_relay;
    }
