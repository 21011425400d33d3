-- ===== src/Common/Gas.antt =====
-- The gas formulas of src/common/Utils.ts. The factors of the linear fit are exact decimal fractions.
pub mod Bounds
use rif_relay.Base.{
  Bool, List, Option, [], if◌then◌else◌, length, ltb, none, not, some, ℕ, ◌*◌, ◌+◌, ◌-◌, ◌/◌, ◌==◌,
  ◌∷◌,
}
use rif_relay.Common.Constants.{
  estimated_gas_correction_factor, internal_transaction_estimate_correction, transaction_gas_cost,
  tx_no_zero_data_gas_cost, tx_zero_data_gas_cost,
}

-- `calculateDeployTransactionMaxPossibleGas`: without a token payment, more gas.
unfoldable pub calculate_deploy_transaction_max_possible_gas : ℕ → Option ℕ → ℕ
calculate_deploy_transaction_max_possible_gas estimated none = estimated + 12000
calculate_deploy_transaction_max_possible_gas estimated (some token_gas) =
    if token_gas == 0 then estimated + 12000 else estimated

abbrev rounded_up : ℕ → ℕ → ℕ
rounded_up n d = (n + d - 1) / d

-- `estimateMaxPossibleRelayCallWithLinearFit`: 1.067 x + 85090.977 in a subsidized call, else
-- 1.1114 x + 72530.9611 of both amounts of gas.
unfoldable pub estimate_max_possible_relay_call_with_linear_fit :
    (relay_call_gas_limit token_payment_gas : ℕ) → (add_cushion : Bool) → ℕ
estimate_max_possible_relay_call_with_linear_fit limit token_gas add_cushion =
    let cushion = if add_cushion then estimated_gas_correction_factor else 1 in
    if token_gas == 0
    then rounded_up ((1067 * limit + 85090977) * cushion) 1000
    else rounded_up ((11114 * (limit + token_gas) + 725309611) * cushion) 10000

-- An internal call costs less than the external one that was estimated.
unfoldable pub internal_call_cost : ℕ → ℕ
internal_call_cost estimated =
    if ltb internal_transaction_estimate_correction estimated
    then estimated - internal_transaction_estimate_correction
    else estimated

-- `nonZeroDataBytes`.
unfoldable pub non_zero_data_bytes : List ℕ → ℕ
non_zero_data_bytes [] = 0
non_zero_data_bytes (b ∷ bs) =
    if not (b == 0) then non_zero_data_bytes bs + 1 else non_zero_data_bytes bs

-- `transactionParamDataCost` of the bytes of the encoded call.
unfoldable pub transaction_param_data_cost : List ℕ → ℕ
unfolding non_zero_data_bytes
transaction_param_data_cost bytes =
    let non_zeroes = non_zero_data_bytes bytes in
    let zero_vals = length bytes - non_zeroes in
    transaction_gas_cost + zero_vals * tx_zero_data_gas_cost + non_zeroes * tx_no_zero_data_gas_cost
