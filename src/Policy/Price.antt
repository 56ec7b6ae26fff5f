-- ===== src/Policy/Price.antt =====
-- `price_variance_flags`. `none` is a decimal exception: a percentage of more than 28 digits.
use procurement_automation.Prelude.{
  Bool, true, false, if◌then◌else◌, Option, none, some, List, [], ◌∷◌, ◌++◌,
}
use procurement_automation.Int.{negsuc}
use procurement_automation.Decimal
use procurement_automation.Decimal.{Decimal, dec, of_ℕ}
use procurement_automation.Policy.{ProcurementPolicy}

pub data PriceFlag : Type 0 where
  no_historical_benchmark : PriceFlag
  price_increase abnormally_low : Decimal → PriceFlag

infixl 5 ◌>>=◌
abbrev ◌>>=◌ : {A B : Type 0} → Option A → (A → Option B) → Option B
none >>= f = none
some a >>= f = f a

-- The flag with the percentage to one place, if it is raised.
abbrev flag_if : Bool → (Decimal → PriceFlag) → Decimal → Option (List PriceFlag)
flag_if false flag pct = some []
flag_if true flag pct = do shown ← Decimal.quantize 1 pct; some (flag shown ∷ [])

-- Decimal(-40)
abbrev pub very_cheap : Decimal
very_cheap = dec (negsuc 39) 0

unfoldable pub delta_pct : Decimal → Decimal → Option Decimal
delta_pct quoted benchmark = do
  ratio ← Decimal.div (Decimal.sub quoted benchmark) benchmark
  some (Decimal.mul ratio (of_ℕ 100))

unfoldable pub flags_for : ProcurementPolicy → Decimal → Option (List PriceFlag)
flags_for p delta = do
  high ← flag_if (Decimal.le p.price_increase_alert_pct delta) price_increase delta
  low ← flag_if (Decimal.le delta very_cheap) abnormally_low delta
  some (high ++ low)

unfoldable pub price_variance_flags :
    ProcurementPolicy → Decimal → Option Decimal → Option (List PriceFlag)
unfolding delta_pct flags_for
price_variance_flags p quoted none = some (no_historical_benchmark ∷ [])
price_variance_flags p quoted (some benchmark) =
    if Decimal.le benchmark (of_ℕ 0)
    then some (no_historical_benchmark ∷ [])
    else (do delta ← delta_pct quoted benchmark; flags_for p delta)
