-- ===== src/Requirement/Evaluate/Numeric.antt =====
-- The numeric comparison of `Requirement.evaluate`.
use procurement_automation.Prelude.{Bool, true, false, if◌then◌else◌, Option, none, some}
use procurement_automation.Vocabulary.Technical.{ComparisonOperator, ComplianceStatus}
use procurement_automation.Decimal
use procurement_automation.Decimal.{Decimal}
use procurement_automation.Requirement.{Requirement}
use procurement_automation.Requirement.Band.{Band, acceptable_band}

-- Which message stands beside the status.
pub data Rationale : Type 0 where
  silent not_convertible supplied ambiguous confirmed contradicted allowed not_allowed : Rationale
  contained not_contained exact differs not_numeric : Rationale
  below above : Decimal → Rationale
  satisfied : Rationale

abbrev pub Outcome : Type 0
Outcome = ComplianceStatus × Rationale

-- A number above the maximum fails these; another requirement has a deviation.
abbrev pub fails_above : ComparisonOperator → Bool
fails_above ComparisonOperator.lte = true
fails_above ComparisonOperator.range = true
fails_above ComparisonOperator.tolerance = true
fails_above _ = false

abbrev pub too_low : Option Decimal → Decimal → Option Rationale
too_low none v = none
too_low (some low) v = if Decimal.lt v low then some (Rationale.below low) else none

abbrev pub too_high : Option Decimal → Decimal → Option Rationale
too_high none v = none
too_high (some high) v = if Decimal.lt high v then some (Rationale.above high) else none

unfoldable pub judge_in : Band → Bool → Decimal → Outcome
judge_in (low, high) strict v = elim (too_low low v) [
  | some why ↦ (ComplianceStatus.non_compliant, why)
  | none ↦ elim (too_high high v) [
    | some why ↦
        ((if strict then ComplianceStatus.non_compliant else ComplianceStatus.deviation), why)
    | none ↦ (ComplianceStatus.compliant, Rationale.satisfied)
  ]
]

unfoldable pub judge : Requirement → Option Decimal → Outcome
unfolding judge_in acceptable_band
judge r none = (ComplianceStatus.unverifiable, Rationale.not_numeric)
judge r (some v) = judge_in (acceptable_band r) (fails_above r.operator) v
