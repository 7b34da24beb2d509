-- ===== src/Money.antt =====
-- Amounts of money: `decimal.Decimal` as the program uses it, and
-- `LedgerService._to_quantized` of app/services/ledger.py.
-- A finite `Decimal` is a signed coefficient with a number of decimal places; money in the
-- database (`Numeric(18, 2)`) is a number of cents. The context's 28 digits are not modelled.
pub mod Rounding
use chamacore.Prelude.{ℕ, suc, ◌+◌, ◌*◌, ◌/◌, ◌^◌, Option}
use chamacore.Prelude.Int.{ℤ, pos, negsuc, sub_ℕ}

pub data Decimal : Type 0 where
  finite : ℤ → ℕ → Decimal
  nan infinity : Decimal

-- What a caller may pass as an amount. `parsed d` is any other object: `d` is what the constructor
-- of `Decimal` makes of it, `none` where that raises.
pub data Amount : Type 0 where
  decimal : Decimal → Amount
  boolean float : Amount
  parsed : Option Decimal → Amount

-- a / b to the nearest whole number, ties upwards.
abbrev pub half_up : ℕ → ℕ → ℕ
half_up a b = (2 * a + b) / (2 * b)

-- Minus a number.
abbrev pub negate : ℕ → ℤ
negate n = sub_ℕ 0 n

-- `quantize(Decimal("0.01"), rounding=ROUND_HALF_UP)`, in cents: ties go away from zero.
unfoldable pub quantize : ℤ → ℕ → ℤ
quantize (pos n) places = pos (half_up (n * 100) (10 ^ places))
quantize (negsuc n) places = negate (half_up (suc n * 100) (10 ^ places))

-- A number of cents as the database returns it, and `Decimal("0")`.
abbrev pub cents : ℕ → Amount
cents n = decimal (finite (pos n) 2)

abbrev pub no_amount : Amount
no_amount = decimal (finite (pos 0) 0)
