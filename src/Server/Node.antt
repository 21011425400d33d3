-- ===== src/Server/Node.antt =====
-- src/common/ContractInteractor.ts as the server uses it: thin calls of web3 and of the hub contract.
-- A `Node` is what the network answers; each answer may depend on how many requests were made
-- before, so the chain may move between any two requests, and a request may be rejected.
use rif_relay.Base.{Bool, List, Option, Text, ℕ}
use rif_relay.Base.Exec.{Result}
use rif_relay.Common.Events.{EventData, EventKind}
use rif_relay.Common.Utils.{Address}

-- The parts of a web3 `Transaction` that the program reads.
pub record Receipt : Type 0 where
  pub block_number : Option ℕ
  pub from : Address
  pub nonce : ℕ

pub record StakeInfo : Type 0 where
  pub stake : ℕ
  pub withdraw_block : ℕ
  pub owner : Address

pub record Node : Type 0 where
  pub gas_price : ℕ → Result ℕ
  pub transaction_count : (pending : Bool) → Address → ℕ → Result ℕ
  pub transaction : Text → ℕ → Result (Option Receipt)
  pub broadcast : Text → ℕ → Result Text
  pub balance : (pending : Bool) → Address → ℕ → Result ℕ
  pub estimate_gas : Text → Address → ℕ → Result ℕ
  pub block_number : ℕ → Result ℕ
  pub hub_events : (from_block : ℕ) → List EventKind → ℕ → Result (List EventData)
  pub stake_events : (from_block : ℕ) → ℕ → Result (List EventData)
  pub stake_info : Address → ℕ → Result StakeInfo
