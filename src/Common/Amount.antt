-- ===== src/Common/Amount.antt =====
-- src/common/AmountRequired.ts, less its log lines and the listener, which only logs.
use rif_relay.Base.{Bool, leb, ℕ}

pub record AmountRequired : Type 0 where
  pub current_value : ℕ
  pub required_value : ℕ

unfoldable pub new_amount : ℕ → AmountRequired
new_amount required = record { current_value = 0; required_value = required }

unfoldable pub set_current_value : ℕ → AmountRequired → AmountRequired
set_current_value v a = record a { current_value = v }

unfoldable pub set_required_value : ℕ → AmountRequired → AmountRequired
set_required_value v a = record a { required_value = v }

unfoldable pub is_satisfied : AmountRequired → Bool
is_satisfied a = leb a.required_value a.current_value
