-- ===== src/Common/Gas/Bounds.antt =====
-- src/common/Utils.ts: what the gas formulas guarantee.
use rif_relay.Base.{Bool, List, [], arith, false, length, true, ℕ, ◌*◌, ◌+◌, ◌<◌, ◌∷◌, ◌≤◌}
use rif_relay.Common.Gas.{
  estimate_max_possible_relay_call_with_linear_fit, non_zero_data_bytes,
  transaction_param_data_cost,
}

-- The linear fit covers the gas of the destination and of the token payment, grows with the former,
-- and a cushion never lowers it.
pub linear_fit_covers :
    (limit more token_gas : ℕ) (cushion : Bool)
    → (limit + token_gas < estimate_max_possible_relay_call_with_linear_fit limit token_gas cushion)
      × (estimate_max_possible_relay_call_with_linear_fit limit token_gas cushion
          ≤ estimate_max_possible_relay_call_with_linear_fit (limit + more) token_gas cushion)
      × (estimate_max_possible_relay_call_with_linear_fit limit token_gas false
          ≤ estimate_max_possible_relay_call_with_linear_fit limit token_gas true)
unfolding estimate_max_possible_relay_call_with_linear_fit
linear_fit_covers limit more token_gas true = (ground arith, ground arith, ground arith)
linear_fit_covers limit more token_gas false = (ground arith, ground arith, ground arith)

non_zero_data_bytes-le : (bs : List ℕ) → non_zero_data_bytes bs ≤ length bs
unfolding non_zero_data_bytes
non_zero_data_bytes-le [] = omega arith
non_zero_data_bytes-le (b ∷ bs) = ground (arith, non_zero_data_bytes-le bs)

-- The cost of the data lies between that of zero bytes only and that of no zero byte.
pub transaction_param_data_cost_bounds :
    (bs : List ℕ)
    → (21000 + 4 * length bs ≤ transaction_param_data_cost bs)
      × (transaction_param_data_cost bs ≤ 21000 + 68 * length bs)
unfolding transaction_param_data_cost
transaction_param_data_cost_bounds bs =
    (omega (arith, non_zero_data_bytes-le bs), omega (arith, non_zero_data_bytes-le bs))
