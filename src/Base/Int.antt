-- ===== src/Base/Int.antt =====
-- Signed amounts: a difference of two amounts may be negative.
use Prim.Native.Nat.{suc, ℕ, ◌+◌, ◌-◌, ◌<◌}
use mathlib.Core.Bool.{Bool, true}
use mathlib.Core.Logic.{◌↔◌}
use mathlib.Core.Path.{◌≡◌}
use native.Mathlib.Omega.{arith}
use rif_relay.Base.Tests.{if◌then◌else◌, leb, ltb}

-- `negsuc n` is -(n + 1).
pub data ℤ : Type 0 where
  pos : ℕ → ℤ
  negsuc : ℕ → ℤ

abbrev pub pos_part : ℤ → ℕ
pos_part (pos n) = n
pos_part (negsuc n) = 0

abbrev pub neg_part : ℤ → ℕ
neg_part (pos n) = 0
neg_part (negsuc n) = suc n

-- `a.sub(b)`.
abbrev pub sub_ℕ : ℕ → ℕ → ℤ
sub_ℕ a b = if leb b a then pos (a - b) else negsuc (b - a - 1)

-- `a.lt(b)`.
abbrev pub lt_ℤ : ℤ → ℤ → Bool
lt_ℤ a b = ltb (pos_part a + neg_part b) (pos_part b + neg_part a)

pub lt_ℤ-sub_ℕ : (a b c d : ℕ) → (lt_ℤ (sub_ℕ a b) (sub_ℕ c d) ≡ true) ↔ (a + d < c + b)
lt_ℤ-sub_ℕ a b c d = ground arith
