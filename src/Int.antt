-- ===== src/Int.antt =====
-- Signed numbers, as the source keeps them in a `long` or a JSON integer, and a cut to 16 bits.
use dazeus_core.Base.{ℕ, ◌-◌, ◌%◌, ◌^◌, ◌<◌, arith}

-- `negsuc n` is -(n + 1).
pub data ℤ : Type 0 where
  pos negsuc : ℕ → ℤ

-- the conversion to `uint16_t`
unfoldable pub to_uint16 : ℤ → ℕ
to_uint16 (pos n) = n % 2 ^ 16
to_uint16 (negsuc n) = 2 ^ 16 - 1 - n % 2 ^ 16

pub to_uint16-lt : (z : ℤ) → to_uint16 z < 2 ^ 16
unfolding to_uint16
to_uint16-lt (pos n) = omega arith
to_uint16-lt (negsuc n) = omega arith
