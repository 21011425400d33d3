-- ===== src/Common/Utils.antt =====
-- src/common/Utils.ts: addresses, event order, registration checks and gas formulas.
use rif_relay.Base.{Bool, Text, text_eq, to_lower}

abbrev pub Address : Type 0
Address = Text

-- Addresses are compared without regard to case.
unfoldable pub is_same_address : Address → Address → Bool
is_same_address a b = text_eq (to_lower a) (to_lower b)
