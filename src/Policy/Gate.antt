-- ===== src/Policy/Gate.antt =====
-- The technical gate: `may_unlock_commercial` and `apply_technical_approval`.
use procurement_automation.Prelude.{ℕ, Bool, not, if◌then◌else◌, eq_of}
use Prim.Native.String.{◌++◌}
use procurement_automation.Errors.{Result, Action, ◌>>◌}
use procurement_automation.Vocabulary.Case.{CaseState, ApprovalType, ApprovalType-discrete}
use procurement_automation.Approval
use procurement_automation.Approval.{Approval}
use procurement_automation.Case.{SourcingCase, is_state, transition, unlock_commercial}
use procurement_automation.Policy.{Reason, PolicyDecision, allow, deny, raise_if_denied}

-- `approval_type == t`
unfoldable pub is_type : ApprovalType → ApprovalType → Bool
unfolding ApprovalType-discrete
is_type s t = eq_of ApprovalType-discrete s t

unfoldable pub may_unlock_commercial : SourcingCase → Approval → PolicyDecision
may_unlock_commercial c a =
    if not (is_type a.approval_type ApprovalType.technical)
    then deny Reason.not_technical
    else if not (Approval.is_positive a)
    then deny Reason.not_granted
    else if not (is_state c.state CaseState.waiting_for_technical_approval)
    then deny Reason.not_awaiting
    else allow Reason.recorded

abbrev lift : Result (Unit {0}) → Action SourcingCase (Unit {0})
lift r c = (r, c)

-- `apply_technical_approval`, with the text `Technical approval {approval_id}`
unfoldable pub apply_technical_approval : Approval → ℕ → Action SourcingCase (Unit {0})
apply_technical_approval a now = do
  lift (Approval.validate a)
  λ c. lift (raise_if_denied (may_unlock_commercial c a)) c
  unlock_commercial a.actor_id now
  transition CaseState.commercial_evaluation a.actor_id ("Technical approval " ++ a.approval_id) now
