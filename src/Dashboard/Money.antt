-- ===== src/Dashboard/Money.antt =====
-- backend/internal/dashboard/money.go: amounts of money. An Amount is an int64, kept as its bit
-- pattern below 2 ^ 64, so that a sum wraps.
use simple_up_manage.Prelude.{ℕ, ◌+◌, ◌%◌, ◌^◌, Bool, ◌||◌, if◌then◌else◌, Float64}

-- What the source takes from package math and from the conversions between float64 and int64.
pub record Rounding (F : Type 0) : Type 0 where
  pub round : F → F
  pub is_nan : F → Bool
  pub is_inf : F → Bool
  pub to_int64 : F → ℕ
  pub of_int64 : ℕ → F

abbrev pub Amount : Type 0
Amount = ℕ

module _ {F : Type 0} ⦃fl : Float64 F⦄ ⦃ro : Rounding F⦄ where
  abbrev pub amount_scale : F
  amount_scale = fl.lit 100000000 0

  -- AmountFromFloat.
  unfoldable pub amount_from_float : F → Amount
  amount_from_float v =
      if ro.is_nan v || ro.is_inf v then 0 else ro.to_int64 (ro.round (fl.mul v amount_scale))

  -- Amount.Float.
  unfoldable pub amount_float : Amount → F
  amount_float a = fl.div (ro.of_int64 a) amount_scale

  unfoldable pub round8 : F → F
  round8 v = fl.div (ro.round (fl.mul v amount_scale)) amount_scale

-- Amount.Add.
unfoldable pub add_amount : Amount → Amount → Amount
add_amount a b = (a + b) % 2 ^ 64
