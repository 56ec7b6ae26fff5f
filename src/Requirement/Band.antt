-- ===== src/Requirement/Band.antt =====
-- `acceptable_band`: the numbers that a requirement accepts.
use procurement_automation.Prelude.{Option, none, some}
use procurement_automation.Decimal
use procurement_automation.Decimal.{Decimal, of_ℕ}
use procurement_automation.Vocabulary.Technical.{ComparisonOperator}
use procurement_automation.Requirement.{Requirement}

-- The lowest and the highest number, where there is one.
abbrev pub Band : Type 0
Band = Option Decimal × Option Decimal

abbrev or_else : Option Decimal → Decimal → Decimal
or_else none d = d
or_else (some x) _ = x

tolerance_band : Option Decimal → Option Decimal → Option Decimal → Band
tolerance_band none plus minus = (none, none)
tolerance_band (some target) plus minus =
    let up = or_else plus (of_ℕ 0) in
    let down = or_else minus up in (some (Decimal.sub target down), some (Decimal.add target up))

exact_band : Option Decimal → Band
exact_band none = (none, none)
exact_band (some target) = (some target, some target)

band_of : ComparisonOperator → Requirement → Band
unfolding tolerance_band exact_band
band_of ComparisonOperator.range r = (r.lower_numeric, r.upper_numeric)
band_of ComparisonOperator.tolerance r =
    tolerance_band r.target_numeric r.tolerance_plus r.tolerance_minus
band_of ComparisonOperator.gte r = (r.target_numeric, none)
band_of ComparisonOperator.lte r = (none, r.target_numeric)
band_of ComparisonOperator.eq r = exact_band r.target_numeric
band_of _ r = (none, none)

unfoldable pub acceptable_band : Requirement → Band
unfolding band_of
acceptable_band r = band_of r.operator r
