-- ===== src/Commands/Tests.antt =====
-- A registration of a relay that has neither stake nor funds and is up after it was paid.
use rif_relay.Base.{Text, [], arith, codes, false, ltb, none, refl, some, suc, true, ◌∷◌, ◌≡◌}
use rif_relay.Base.Exec.{Result, err, ok}
use rif_relay.Client.Tests.Chain.{bound_chain, the_chain}
use rif_relay.Commands.{CommandEnv, CommandState, RegisterOptions, register_relay, wait_until}
use rif_relay.Commands.Deploy.{DeployEnv, DeployOptions, DeployState, deploy_contracts}
use rif_relay.Commands.Deploy.Contracts.{IsDeployed}
use rif_relay.Commands.Deploy.Contracts.Deployed.{deploy_contracts-IsDeployed}
use rif_relay.Commands.Paid.{IsPaid, register_relay-IsPaid}
use rif_relay.Commands.Waits.{wait_until-fuel}
use rif_relay.Common.Constants.{zero_address}
use rif_relay.Config.Files.{Deployment}

abbrev small_commands : CommandEnv
small_commands = record {
  chain = the_chain;
  configured_hub = some (104 ∷ []);
  ping_answer = λ url t. ok (record {
    answers_ready = ltb 4 t;
    chain_text = 33 ∷ [];
    manager_pinged = 109 ∷ [];
    hub_pinged = 104 ∷ [];
  });
  show_id = λ n. n ∷ [];
  stake_info = λ h m t. ok (record { staked = 0; delay_staked = 0; owner = zero_address });
  stake_answer = λ p t. ok (1 ∷ []);
  fund_answer = λ p t. ok (some (2 ∷ []));
  passes = λ t. 10;
}

abbrev before : CommandState
before = record { chain = bound_chain; now = 0; requests = 0; payments = []; transactions = [] }

abbrev wanted : RegisterOptions
wanted = record {
  relay_url = 117 ∷ [];
  from = 111 ∷ [];
  stake = 100;
  unstake_delay = 50;
  funds = 20000000;
}

register_relay-IsPaid_example :
    IsPaid small_commands wanted before (register_relay small_commands 9 wanted before).1
unfolding register_relay rif_relay.Base.Exec.catch rif_relay.Base.Exec.◌>>=◌
    rif_relay.Base.Strings.text_eq rif_relay.Commands.contact rif_relay.Commands.finish_registration
    rif_relay.Commands.fund_if_needed rif_relay.Commands.initialize_chain
    rif_relay.Commands.is_relay_ready rif_relay.Commands.is_staked rif_relay.Commands.pay_relay
    rif_relay.Commands.register_steps rif_relay.Commands.stake_if_needed
    rif_relay.Commands.stake_info_of rif_relay.Commands.try_register
    rif_relay.Commands.wait_for_relay wait_until
register_relay-IsPaid_example =
    register_relay-IsPaid small_commands 9 wanted before
      (register_relay small_commands 9 wanted before).1
      (record { success = true; hashes = some ((1 ∷ []) ∷ (2 ∷ []) ∷ []); failure = none }) refl
      refl

wait_until-fuel_example :
    wait_until small_commands (suc 20) 60000 (117 ∷ []) before
    ≡ wait_until small_commands (suc 30) 60000 (117 ∷ []) before
wait_until-fuel_example =
    wait_until-fuel small_commands 20 30 60000 (117 ∷ []) before (omega arith) (omega arith)

-- The hub is given, all else is created after one wrong and then only right confirmations.
abbrev small_deploy : DeployEnv
small_deploy = record {
  estimate_creation = λ c a t. ok 60000;
  create = λ c a f p g t. ok (t ∷ []);
  register_version = λ i v a t. ok tt;
  unlocked_accounts = λ t. ok ((109 ∷ []) ∷ []);
  account_balance = λ a t. ok 5;
}

abbrev only_hub : DeployOptions
only_hub = record {
  deployer = 109 ∷ [];
  deploy_gas_price = none;
  given = record {
    relay_hub = some (104 ∷ []);
    penalizer = none;
    smart_wallet_template = none;
    smart_wallet_factory = none;
    version_registry = none;
    relay_verifier = none;
    deploy_verifier = none;
    custom_smart_wallet_template = none;
    custom_smart_wallet_factory = none;
    custom_smart_wallet_deploy_verifier = none;
    custom_smart_wallet_relay_verifier = none;
  };
  registry_hub_id = some (codes "hub");
  skip_confirmation = false;
  hub_configuration = record {
    max_worker_count = 10;
    minimum_stake = codes "1";
    minimum_unstake_delay = 1000;
    minimum_entry_deposit_value = codes "1";
  };
}

abbrev yes : Text
yes = codes "yes"

abbrev undeployed : DeployState
undeployed = record {
  made = 0;
  typed = codes "y" ∷ yes ∷ yes ∷ yes ∷ yes ∷ yes ∷ yes ∷ yes ∷ yes ∷ yes ∷ yes ∷ [];
  creations = [];
  added_versions = [];
  config_hub = zero_address;
  config_deploy_verifier = zero_address;
  config_relay_verifier = zero_address;
}

abbrev deployed_or : Result (Deployment Text) → Deployment Text
deployed_or (ok d) = d
deployed_or (err e) = record {
  relay_hub = [];
  penalizer = [];
  smart_wallet_template = [];
  smart_wallet_factory = [];
  version_registry = [];
  relay_verifier = [];
  deploy_verifier = [];
  custom_smart_wallet_template = [];
  custom_smart_wallet_factory = [];
  custom_smart_wallet_deploy_verifier = [];
  custom_smart_wallet_relay_verifier = [];
}

abbrev all_deployed : Deployment Text
all_deployed = deployed_or (deploy_contracts small_deploy only_hub undeployed).0

deploy_contracts-IsDeployed_example :
    IsDeployed only_hub undeployed
      (deploy_contracts small_deploy only_hub undeployed).1
      all_deployed
unfolding deploy_contracts rif_relay.Base.Exec.◌>>=◌ rif_relay.Base.Strings.text_eq
    rif_relay.Commands.Deploy.confirm rif_relay.Commands.Deploy.confirm_from
    rif_relay.Commands.Deploy.get_contract rif_relay.Commands.Deploy.note_version
deploy_contracts-IsDeployed_example =
    deploy_contracts-IsDeployed small_deploy only_hub undeployed
      (deploy_contracts small_deploy only_hub undeployed).1 all_deployed refl
