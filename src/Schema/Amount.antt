-- ===== src/Schema/Amount.antt =====
-- Whole numbers with a sign: an amount of cents, which `reserve` makes negative for a booking
-- whose dates are reversed.
use booking_hotel.Prelude.{ℕ, zero, suc}

-- `negsuc n` is -(n + 1).
pub data ℤ : Type 0 where
  pos : ℕ → ℤ
  negsuc : ℕ → ℤ

-- -n
abbrev pub neg : ℕ → ℤ
neg zero = pos zero
neg (suc n) = negsuc n
