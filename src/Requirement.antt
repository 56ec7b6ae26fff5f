-- ===== src/Requirement.antt =====
-- Requirements, their comparison with a supplier's offer, and assessments
-- (procureguard/domain/entities.py). The texts of rationales are data: what they interpolate.
pub mod Answers
pub mod Band
pub mod Evaluate
pub mod Compliance
pub mod Dashes
use procurement_automation.Prelude.{
  ℕ, Bool, true, false, not, ◌&&◌, ◌||◌, if◌then◌else◌, Option, none, some, List, [], ◌∷◌, ◌++◌,
  String, is_empty,
}
use procurement_automation.Prelude.Text.{codes, strip}
use procurement_automation.Vocabulary.Evidence.{TrustState}
use procurement_automation.Vocabulary.Technical.{
  RequirementKind, RequirementObligation, ComparisonOperator, ComplianceStatus, is_blocking,
}
use procurement_automation.Decimal
use procurement_automation.Decimal.{Decimal, of_ℕ}

pub record Requirement : Type 0 where
  pub requirement_id : String
  pub case_id : String
  pub kind : RequirementKind
  pub obligation : RequirementObligation
  pub attribute : String
  pub operator : ComparisonOperator
  pub raw_text : String
  pub target_value : String
  pub target_numeric : Option Decimal
  pub upper_numeric : Option Decimal
  pub lower_numeric : Option Decimal
  pub tolerance_plus : Option Decimal
  pub tolerance_minus : Option Decimal
  pub uom : String
  pub allowed_values : List String
  pub weight : Decimal
  pub source_document_version_id : String
  pub source_location : String
  pub trust_state : TrustState
  pub extraction_confidence : Decimal
  pub created_at : ℕ

-- `is_mandatory`
unfoldable pub is_mandatory : RequirementObligation → Bool
is_mandatory RequirementObligation.mandatory = true
is_mandatory _ = false

-- The complaints of `validate`.
pub data Defect : Type 0 where
  no_attribute no_target no_bounds no_allowed_values bad_weight : Defect

abbrev pub is_missing {ℓ} : {A : Type ℓ} → Option A → Bool
is_missing none = true
is_missing (some _) = false

abbrev pub needs_target : ComparisonOperator → Bool
needs_target ComparisonOperator.gte = true
needs_target ComparisonOperator.lte = true
needs_target ComparisonOperator.tolerance = true
needs_target _ = false

abbrev pub is_range : ComparisonOperator → Bool
is_range ComparisonOperator.range = true
is_range _ = false

abbrev pub is_one_of_op : ComparisonOperator → Bool
is_one_of_op ComparisonOperator.one_of = true
is_one_of_op _ = false

abbrev complain : Bool → Defect → List Defect
complain true d = d ∷ []
complain false d = []

-- `Requirement.validate`
unfoldable pub validate : Requirement → List Defect
validate r =
    complain (is_empty (strip (codes r.attribute))) Defect.no_attribute
    ++ (complain (needs_target r.operator && is_missing r.target_numeric) Defect.no_target
        ++ (complain
              (is_range r.operator && (is_missing r.lower_numeric || is_missing r.upper_numeric))
              Defect.no_bounds
            ++ (complain (is_one_of_op r.operator && is_empty r.allowed_values)
                  Defect.no_allowed_values
                ++ complain (Decimal.le r.weight (of_ℕ 0)) Defect.bad_weight)))

-- `ComplianceAssessment`
pub record ComplianceAssessment : Type 0 where
  pub requirement_id : String
  pub supplier_id : String
  pub status : ComplianceStatus
  pub offered_value : String
  pub rationale : String
  pub evidence_ids : List String
  pub assessed_by : String
  pub deviation_accepted : Bool
  pub deviation_approval_id : String
  pub confidence : Decimal

abbrev is_deviation : ComplianceStatus → Bool
is_deviation ComplianceStatus.deviation = true
is_deviation _ = false

-- `blocks_qualification`
unfoldable pub blocks_qualification : ComplianceAssessment → Bool
unfolding is_blocking
blocks_qualification a =
    if a.deviation_accepted then false else is_blocking a.status || is_deviation a.status
