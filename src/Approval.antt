-- ===== src/Approval.antt =====
-- `Approval` (procureguard/domain/entities.py): the record of a human decision. Its `payload`, a
-- free dictionary that no rule reads, is not modelled.
use procurement_automation.Prelude.{
  ℕ, Bool, true, false, ltb, ◌&&◌, if◌then◌else◌, List, String, str_eq, is_empty, length,
}
use procurement_automation.Prelude.Text.{codes, strip}
use procurement_automation.Errors.{Error, Result, ok, err}
use procurement_automation.Vocabulary.Case.{ApprovalType, ApprovalDecision}

pub record Approval : Type 0 where
  pub approval_id : String
  pub case_id : String
  pub approval_type : ApprovalType
  pub decision : ApprovalDecision
  pub actor_id : String
  pub reason : String
  pub actor_roles : List String
  pub subject_ref : String
  pub conditions : List String
  pub created_at : ℕ
  pub signature : String

abbrev is_conditional : ApprovalDecision → Bool
is_conditional ApprovalDecision.approved_with_conditions = true
is_conditional _ = false

-- `Approval.validate`
unfoldable pub validate : Approval → Result (Unit {0})
validate a =
    if is_empty (strip (codes a.actor_id))
    then err Error.validation
    else if str_eq a.actor_id "SYSTEM"
    then err Error.policy_violation
    else if ltb (length (strip (codes a.reason))) 3
    then err Error.validation
    else if is_conditional a.decision && is_empty a.conditions
    then err Error.validation
    else ok tt

abbrev grants : ApprovalDecision → Bool
grants ApprovalDecision.approved = true
grants ApprovalDecision.approved_with_conditions = true
grants _ = false

-- `is_positive`
unfoldable pub is_positive : Approval → Bool
is_positive a = grants a.decision
