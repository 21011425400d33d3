-- ===== src/Common/Constants.antt =====
-- src/common/Constants.ts.
use rif_relay.Base.{codes, ℕ}
use rif_relay.Common.Utils.{Address}

abbrev pub zero_address : Address
zero_address = codes "0x0000000000000000000000000000000000000000"

abbrev pub transaction_gas_cost : ℕ
transaction_gas_cost = 21000

abbrev pub tx_zero_data_gas_cost : ℕ
tx_zero_data_gas_cost = 4

abbrev pub tx_no_zero_data_gas_cost : ℕ
tx_no_zero_data_gas_cost = 68

-- The factor 2.0 is a whole number.
abbrev pub estimated_gas_correction_factor : ℕ
estimated_gas_correction_factor = 2

abbrev pub internal_transaction_estimate_correction : ℕ
internal_transaction_estimate_correction = 20000

abbrev pub wait_for_receipt_retries : ℕ
wait_for_receipt_retries = 6

abbrev pub wait_for_receipt_initial_backoff : ℕ
wait_for_receipt_initial_backoff = 1000
