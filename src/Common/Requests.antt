-- ===== src/Common/Requests.antt =====
-- src/common/EIP712/RelayRequest.ts, ForwardRequest.ts, RelayData.ts and the requests of
-- src/relayclient/types. A decimal text of a number is the number; the text `NaN` is none.
use rif_relay.Base.{Bool, Option, Text, false, true, ℕ}
use rif_relay.Common.Utils.{Address}

pub record RelayData : Type 0 where
  pub gas_price : Option ℕ
  pub domain_separator : Text
  pub relay_worker : Address
  pub call_forwarder : Address
  pub call_verifier : Address

pub record ForwardRequest : Type 0 where
  pub relay_hub : Address
  pub from : Address
  pub to : Address
  pub token_contract : Address
  pub value : ℕ
  pub gas : Option ℕ
  pub nonce : ℕ
  pub token_amount : ℕ
  pub token_gas : ℕ
  pub payload : Text

pub record DeployRequestStruct : Type 0 where
  pub relay_hub : Address
  pub from : Address
  pub to : Address
  pub token_contract : Address
  pub recoverer : Address
  pub value : ℕ
  pub nonce : ℕ
  pub token_amount : ℕ
  pub token_gas : ℕ
  pub index : ℕ
  pub payload : Text

pub record RelayRequest : Type 0 where
  pub request : ForwardRequest
  pub relay_data : RelayData

pub record DeployRequest : Type 0 where
  pub request : DeployRequestStruct
  pub relay_data : RelayData

pub record RelayMetadata : Type 0 where
  pub relay_hub_address : Address
  pub relay_max_nonce : ℕ
  pub signature : Text

pub record RelayTransactionRequest : Type 0 where
  pub relay_request : RelayRequest
  pub metadata : RelayMetadata

pub record DeployTransactionRequest : Type 0 where
  pub relay_request : DeployRequest
  pub metadata : RelayMetadata

-- `RelayRequest | DeployRequest`: only the latter has a recoverer.
pub data AnyRequest : Type 0 where
  for_relay : RelayRequest → AnyRequest
  for_deploy : DeployRequest → AnyRequest

-- `RelayTransactionRequest | DeployTransactionRequest`.
pub data AnyTransactionRequest : Type 0 where
  to_relay : RelayTransactionRequest → AnyTransactionRequest
  to_deploy : DeployTransactionRequest → AnyTransactionRequest

unfoldable pub is_deploy_request : AnyRequest → Bool
is_deploy_request (for_relay r) = false
is_deploy_request (for_deploy d) = true

abbrev pub sender_of : AnyRequest → Address
sender_of (for_relay r) = r.request.from
sender_of (for_deploy d) = d.request.from

abbrev pub relay_data_of : AnyRequest → RelayData
relay_data_of (for_relay r) = r.relay_data
relay_data_of (for_deploy d) = d.relay_data

abbrev pub request_of : AnyTransactionRequest → AnyRequest
request_of (to_relay r) = for_relay r.relay_request
request_of (to_deploy d) = for_deploy d.relay_request

abbrev pub metadata_of : AnyTransactionRequest → RelayMetadata
metadata_of (to_relay r) = r.metadata
metadata_of (to_deploy d) = d.metadata
