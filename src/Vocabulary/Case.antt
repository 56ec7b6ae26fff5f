-- ===== src/Vocabulary/Case.antt =====
-- The life cycle of a sourcing case and the decisions of people (procureguard/domain/enums.py).
use procurement_automation.Prelude.{Bool, true, false}

pub data CaseState : Type 0 where
  received validating_pr waiting_for_engineering sourcing_strategy ready_for_rfq : CaseState
  waiting_for_quotes technical_evaluation waiting_for_technical_approval : CaseState
  commercial_evaluation negotiation waiting_for_award_approval po_recommendation : CaseState
  order_placed expediting completed cancelled failed : CaseState

pub data ApprovalType : Type 0 where
  pr_exception sourcing_strategy rfq_release technical deviation commercial_unlock : ApprovalType
  negotiation_send award po_release single_source payment_detail_change : ApprovalType

pub data ApprovalDecision : Type 0 where
  approved rejected approved_with_conditions returned_for_rework : ApprovalDecision

unfoldable pub CaseState-discrete : Discrete CaseState
CaseState-discrete = hlevel

unfoldable pub ApprovalType-discrete : Discrete ApprovalType
ApprovalType-discrete = hlevel

-- `CaseState.is_terminal`
unfoldable pub is_terminal : CaseState → Bool
is_terminal CaseState.completed = true
is_terminal CaseState.cancelled = true
is_terminal CaseState.failed = true
is_terminal _ = false

-- `CaseState.is_waiting_on_human`
unfoldable pub is_waiting_on_human : CaseState → Bool
is_waiting_on_human CaseState.waiting_for_engineering = true
is_waiting_on_human CaseState.waiting_for_technical_approval = true
is_waiting_on_human CaseState.waiting_for_award_approval = true
is_waiting_on_human _ = false
