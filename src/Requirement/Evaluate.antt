-- ===== src/Requirement/Evaluate.antt =====
-- `Requirement.evaluate`: an offer against a requirement. The converter is an argument: `none` is
-- any exception that it raises.
pub mod Numeric
use procurement_automation.Prelude.{
  Bool, true, false, not, ◌&&◌, ◌||◌, if◌then◌else◌, Option, none, some, List, [], ◌∷◌, String, any,
  is_empty,
}
use procurement_automation.Prelude.Text.{Codes, Unicode, codes, strip, upper, eq_codes, occurs_in}
use procurement_automation.Vocabulary.Technical.{ComparisonOperator, ComplianceStatus}
use procurement_automation.Decimal
use procurement_automation.Decimal.{Decimal}
use procurement_automation.Requirement.{Requirement, is_missing}
use procurement_automation.Requirement.Answers.{
  text_of, norm, Reading, reads, unclear, no_word, as_bool,
}
use Numeric.{Outcome, Rationale, judge}

-- What a supplier offers for one requirement.
pub record Offer : Type 0 where
  pub text : Option String
  pub numeric : Option Decimal
  pub uom : String

abbrev pub Converter : Type 0
Converter = Decimal → String → String → Option Decimal

-- The unit conversion: `none` is the failed one.
abbrev pub aligned : Bool → Converter → Option Decimal → String → String → Option (Option Decimal)
aligned needed convert none from to = some none
aligned false convert (some v) from to = some (some v)
aligned true convert (some v) from to = elim (convert v from to) [
  | none ↦ none
  | some w ↦ some (some w)
]

-- `offered_uom.strip().upper() != self.uom.strip().upper()`, of two units that are given.
unfoldable pub differ : Unicode → String → String → Bool
unfolding strip upper eq_codes
differ u from to =
    not (is_empty (codes to))
    && (not (is_empty (codes from))
        && not (eq_codes (upper u (strip (codes from))) (upper u (strip (codes to)))))

-- The BOOLEAN case: the answer, then what is expected, which is yes if the target is unclear.
unfoldable pub judge_boolean : Reading → Reading → Option Outcome
judge_boolean no_word expected = none
judge_boolean unclear expected = some (ComplianceStatus.unverifiable, Rationale.ambiguous)
judge_boolean (reads answer) no_word = none
judge_boolean (reads answer) unclear = some (
    if answer
    then (ComplianceStatus.compliant, Rationale.confirmed)
    else (ComplianceStatus.non_compliant, Rationale.contradicted))
judge_boolean (reads answer) (reads expected) = some (
    if answer && expected || not answer && not expected
    then (ComplianceStatus.compliant, Rationale.confirmed)
    else (ComplianceStatus.non_compliant, Rationale.contradicted))

-- The tests after the units are aligned; `none` is an exception.
unfoldable pub judge_by :
    ComparisonOperator → Unicode → Requirement → Offer → Option Decimal → Option Outcome
unfolding judge_boolean
judge_by ComparisonOperator.present u r o value =
    some (ComplianceStatus.compliant, Rationale.supplied)
judge_by ComparisonOperator.boolean u r o value =
    judge_boolean (as_bool u o.text) (as_bool u (some r.target_value))
judge_by ComparisonOperator.one_of u r o value = some (
    if any (λ allowed. eq_codes (norm u (some allowed)) (norm u o.text)) r.allowed_values
    then (ComplianceStatus.compliant, Rationale.allowed)
    else (ComplianceStatus.non_compliant, Rationale.not_allowed))
judge_by ComparisonOperator.contains u r o value = some (
    if occurs_in (norm u (some r.target_value)) (norm u o.text)
    then (ComplianceStatus.compliant, Rationale.contained)
    else (ComplianceStatus.non_compliant, Rationale.not_contained))
judge_by ComparisonOperator.eq u r o value =
    if is_missing r.target_numeric
    then some (
        if eq_codes (norm u o.text) (norm u (some r.target_value))
        then (ComplianceStatus.compliant, Rationale.exact)
        else (ComplianceStatus.deviation, Rationale.differs))
    else some (judge r value)
judge_by op u r o value = some (judge r value)

abbrev pub is_silent : Offer → Bool
is_silent o = is_missing o.numeric && is_empty (strip (text_of o.text))

-- `Requirement.evaluate`
unfoldable pub evaluate : Unicode → Converter → Requirement → Offer → Option Outcome
evaluate u convert r o =
    if is_silent o
    then some (ComplianceStatus.not_addressed, Rationale.silent)
    else elim (aligned (differ u o.uom r.uom) convert o.numeric o.uom r.uom) [
      | none ↦ some (ComplianceStatus.unverifiable, Rationale.not_convertible)
      | some value ↦ judge_by r.operator u r o value
    ]
