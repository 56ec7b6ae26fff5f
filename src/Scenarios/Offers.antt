-- ===== src/Scenarios/Offers.antt =====
-- Offers that are compared with requirements.
use procurement_automation.Prelude.{◌≡◌, ◌↔◌, refl, none, some, []}
use procurement_automation.Vocabulary.Evidence.{TrustState}
use procurement_automation.Vocabulary.Technical.{
  RequirementKind, RequirementObligation, ComparisonOperator, ComplianceStatus,
}
use procurement_automation.Int
use procurement_automation.Decimal
use procurement_automation.Decimal.{Decimal, of_ℕ, dec}
use procurement_automation.Requirement.{Requirement}
use procurement_automation.Requirement.Band.{acceptable_band}
use procurement_automation.Requirement.Evaluate.{
  Offer, Converter, judge_by, evaluate, differ, aligned,
}
use procurement_automation.Requirement.Evaluate.Numeric.{judge}
use procurement_automation.Requirement.Compliance.{status_of, IsWithin, evaluate-compliant}
use procurement_automation.Requirement.Dashes.{evaluate-dashes}
use procurement_automation.Scenarios.{ascii}

abbrev pressure : ComparisonOperator → Requirement
pressure op = record {
  requirement_id = "R1";
  case_id = "C1";
  kind = RequirementKind.performance;
  obligation = RequirementObligation.mandatory;
  attribute = "design pressure";
  operator = op;
  raw_text = "";
  target_value = "yes";
  target_numeric = some (of_ℕ 16);
  upper_numeric = none;
  lower_numeric = none;
  tolerance_plus = some (of_ℕ 2);
  tolerance_minus = none;
  uom = "bar";
  allowed_values = [];
  weight = of_ℕ 1;
  source_document_version_id = "";
  source_location = "";
  trust_state = TrustState.verified;
  extraction_confidence = of_ℕ 1;
  created_at = 0;
}

-- A converter that knows only psi to bar, roughly.
abbrev roughly : Converter
roughly v from to = some (Decimal.mul v (dec (Int.pos 69) 3))

abbrev in_psi : Offer
in_psi = record { text = none; numeric = some (of_ℕ 232); uom = "psi" }

abbrev in_words : Offer
in_words = record { text = some "as requested"; numeric = none; uom = "" }

abbrev dashed : Offer
dashed = record { text = some "--"; numeric = none; uom = "" }

converted :
    aligned (differ ascii "psi" "bar") roughly (some (of_ℕ 232)) "psi" "bar"
    ≡ some (some (dec (Int.pos 16008) 3))
unfolding differ Decimal.mul
converted = refl

complies :
    status_of (evaluate ascii roughly (pressure ComparisonOperator.tolerance) in_psi)
    ≡ some ComplianceStatus.compliant
unfolding evaluate differ judge_by judge Decimal.lt Decimal.mul Decimal.sub
complies = refl

evaluate-compliant_example :
    (status_of (evaluate ascii roughly (pressure ComparisonOperator.tolerance) in_psi)
      ≡ some ComplianceStatus.compliant)
    ↔ IsWithin (acceptable_band (pressure ComparisonOperator.tolerance)) (dec (Int.pos 16008) 3)
evaluate-compliant_example =
    evaluate-compliant ascii roughly (pressure ComparisonOperator.tolerance) in_psi
      (dec (Int.pos 16008) 3) refl converted

evaluate-dashes_example : evaluate ascii roughly (pressure ComparisonOperator.boolean) dashed ≡ none
evaluate-dashes_example =
    evaluate-dashes ascii roughly (pressure ComparisonOperator.boolean) dashed "--" 1 refl refl refl
      refl
