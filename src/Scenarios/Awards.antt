-- ===== src/Scenarios/Awards.antt =====
-- Award chains, roles and technical qualification.
use procurement_automation.Prelude.{
  ◌≡◌, ◌↔◌, refl, true, false, none, some, List, [], ◌∷◌, String, All,
}
use procurement_automation.Prelude.Dict
use procurement_automation.Vocabulary.Case.{ApprovalType, ApprovalDecision}
use procurement_automation.Vocabulary.Access.{role_of}
use procurement_automation.Vocabulary.Evidence.{TrustState}
use procurement_automation.Vocabulary.Technical.{
  RequirementKind, RequirementObligation, ComparisonOperator, ComplianceStatus,
}
use procurement_automation.Decimal
use procurement_automation.Decimal.{of_ℕ}
use procurement_automation.Approval
use procurement_automation.Approval.{Approval}
use procurement_automation.Requirement
use procurement_automation.Requirement.{Requirement, ComplianceAssessment}
use procurement_automation.Policy.{default_policy}
use procurement_automation.Policy.Gate.{is_type}
use procurement_automation.Policy.Award.{
  is_eligible, is_consumed, matches, award_chain_satisfied, approval_chain_for_award, dual_award,
  roles_of, missing_from,
}
use procurement_automation.Policy.Award.Signed.{AreSigned, satisfied-AreSigned}
use procurement_automation.Policy.Award.Order.{
  IsPartOf, IsAward, chain_monotone, order_matters, one_person_signs_twice,
}
use procurement_automation.Policy.Qualify.{
  qualifies_technically, mandatory_ids, insert_sorted, by_requirement, blockers_of,
}
use procurement_automation.Policy.Qualify.Complete.{last_of, meets, qualifies_technically_iff}

abbrev signed_by : String → String → String → Approval
signed_by id actor role = record {
  approval_id = id;
  case_id = "C1";
  approval_type = ApprovalType.award;
  decision = ApprovalDecision.approved;
  actor_id = actor;
  reason = "best offer";
  actor_roles = role ∷ [];
  subject_ref = "S1";
  conditions = [];
  created_at = 9;
  signature = "";
}

abbrev by_head : Approval
by_head = signed_by "A1" "hana" "PROCUREMENT_HEAD"

abbrev by_manager : Approval
by_manager = signed_by "A2" "carl" "CATEGORY_MANAGER"

abbrev by_executive : Approval
by_executive = signed_by "A3" "eve" "EXECUTIVE"

-- An award of 100,000 stands between the thresholds, one of 300,000 above both.
between_thresholds :
    (Decimal.le default_policy.dual_approval_threshold (of_ℕ 100_000) ≡ true)
    × (Decimal.le default_policy.executive_approval_threshold (of_ℕ 100_000) ≡ false)
    × (Decimal.le (of_ℕ 100_000) (of_ℕ 300_000) ≡ true)
unfolding Decimal.le
between_thresholds = (refl, refl, refl)

head_eligible : is_eligible dual_award by_head ≡ true
unfolding is_eligible roles_of role_of
head_eligible = refl

manager_ineligible : is_eligible dual_award by_manager ≡ false
unfolding is_eligible roles_of role_of
manager_ineligible = refl

head-IsAward : IsAward by_head
unfolding is_eligible roles_of role_of Approval.is_positive is_type
head-IsAward = record { positive = refl; type = refl; standard = refl }

manager-IsAward : IsAward by_manager
unfolding is_eligible roles_of role_of Approval.is_positive is_type
manager-IsAward = record { positive = refl; type = refl; standard = refl }

abbrev three_signers : List Approval
three_signers = by_manager ∷ by_head ∷ by_executive ∷ []

three_suffice :
    award_chain_satisfied
      (approval_chain_for_award default_policy (of_ℕ 300_000) false false)
      three_signers
    ≡ true
unfolding award_chain_satisfied approval_chain_for_award Decimal.le missing_from matches is_consumed
    is_eligible roles_of role_of Approval.is_positive is_type
three_suffice = refl

satisfied-AreSigned_example :
    AreSigned three_signers [] (approval_chain_for_award default_policy (of_ℕ 300_000) false false)
satisfied-AreSigned_example =
    satisfied-AreSigned (approval_chain_for_award default_policy (of_ℕ 300_000) false false)
      three_signers three_suffice

chain_monotone_example :
    IsPartOf
      (approval_chain_for_award default_policy (of_ℕ 100_000) true false)
      (approval_chain_for_award default_policy (of_ℕ 300_000) true false)
chain_monotone_example =
    chain_monotone default_policy (of_ℕ 100_000) (of_ℕ 300_000) true false between_thresholds.2

order_matters_example :
    (award_chain_satisfied
        (approval_chain_for_award default_policy (of_ℕ 100_000) false false)
        (by_manager ∷ by_head ∷ [])
      ≡ true)
    × (award_chain_satisfied
          (approval_chain_for_award default_policy (of_ℕ 100_000) false false)
          (by_head ∷ by_manager ∷ [])
        ≡ false)
order_matters_example =
    order_matters default_policy (of_ℕ 100_000) between_thresholds.0 between_thresholds.1 by_head
      by_manager head-IsAward manager-IsAward head_eligible manager_ineligible refl refl

one_person_signs_twice_example :
    award_chain_satisfied
      (approval_chain_for_award default_policy (of_ℕ 100_000) false false)
      (by_head ∷ record by_head { approval_id = "A9" } ∷ [])
    ≡ true
one_person_signs_twice_example =
    one_person_signs_twice default_policy (of_ℕ 100_000) between_thresholds.0 between_thresholds.1
      by_head "A9" head-IsAward head_eligible refl

abbrev requirement : String → RequirementObligation → Requirement
requirement id obligation = record {
  requirement_id = id;
  case_id = "C1";
  kind = RequirementKind.performance;
  obligation = obligation;
  attribute = "design pressure";
  operator = ComparisonOperator.gte;
  raw_text = "";
  target_value = "16";
  target_numeric = some (of_ℕ 16);
  upper_numeric = none;
  lower_numeric = none;
  tolerance_plus = none;
  tolerance_minus = none;
  uom = "BAR";
  allowed_values = [];
  weight = of_ℕ 1;
  source_document_version_id = "";
  source_location = "";
  trust_state = TrustState.verified;
  extraction_confidence = of_ℕ 1;
  created_at = 0;
}

abbrev assessment : String → ComplianceStatus → ComplianceAssessment
assessment id status = record {
  requirement_id = id;
  supplier_id = "S1";
  status = status;
  offered_value = "";
  rationale = "";
  evidence_ids = [];
  assessed_by = "";
  deviation_accepted = false;
  deviation_approval_id = "";
  confidence = of_ℕ 1;
}

abbrev asked : List Requirement
asked =
    requirement "R2" RequirementObligation.mandatory
    ∷ requirement "R1" RequirementObligation.desirable
    ∷ []

-- The second assessment of R2 replaces the first; R1 is not mandatory, so it may be missing.
abbrev answers : List ComplianceAssessment
answers =
    assessment "R2" ComplianceStatus.non_compliant ∷ assessment "R2" ComplianceStatus.compliant ∷ []

qualified : (qualifies_technically answers asked).0 ≡ true
unfolding qualifies_technically mandatory_ids by_requirement blockers_of Requirement.is_mandatory
    insert_sorted Dict.get Dict.put Requirement.blocks_qualification
qualified = refl

qualifies_technically_iff_example :
    ((qualifies_technically answers asked).0 ≡ true)
    ↔ All
        (λ r.
          Requirement.is_mandatory r.obligation ≡ true
          → meets (last_of r.requirement_id answers) ≡ true)
        asked
qualifies_technically_iff_example = qualifies_technically_iff answers asked
