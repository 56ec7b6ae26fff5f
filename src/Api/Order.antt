-- ===== src/Api/Order.antt =====
-- `release_po` (procureguard/api/routes/approvals.py) with `PoRecommendationService.release`
-- (application/po_recommendation.py): the last human gate. The audit log is not modelled.
use procurement_automation.Prelude.{
  ℕ, Bool, not, ◌||◌, ◌&&◌, if◌then◌else◌, Option, some, List, [], ◌∷◌, String, str_eq, any,
}
use procurement_automation.Prelude.Text.{Unicode, Codes, codes, upper, is_one_of}
use procurement_automation.Errors.{Error, Result, ok}
use procurement_automation.Errors.Chain.{◌>>=◌, ◌>>◌, found, refuse_if}
use procurement_automation.Vocabulary.Access.{Permission}
use procurement_automation.Vocabulary.Case.{CaseState, ApprovalType, ApprovalDecision}
use procurement_automation.Approval
use procurement_automation.Approval.{Approval}
use procurement_automation.Case.{SourcingCase, is_state, transition}
use procurement_automation.Policy.Gate.{is_type}
use procurement_automation.Api.{Desk, ApprovalRequest, Context}
use procurement_automation.Api.Principal.{Principal, require}
use procurement_automation.Api.Store.{save, record_approval}
use procurement_automation.Api.Technical.{settle}

-- A row of `po_recommendations`: what the release reads and writes.
pub record Recommendation : Type 0 where
  pub recommendation_number : String
  pub status : String
  pub approval_chain_satisfied : Bool
  pub released_by : String
  pub released_at : Option ℕ
  pub erp_po_number : String

-- `ReleasePoRequest`
pub record ReleasePoRequest : Type 0 where
  pub erp_po_number : String
  pub reason : String

abbrev reserved_names : List Codes
reserved_names = codes "SYSTEM" ∷ codes "AGENT" ∷ []

-- `not actor_id or actor_id.upper() in ("SYSTEM", "AGENT")`
unfoldable pub is_no_person : Unicode → String → Bool
is_no_person u actor = str_eq actor "" || is_one_of reserved_names (upper u (codes actor))

abbrev pub is_order_approval : Approval → Bool
is_order_approval a = is_type a.approval_type ApprovalType.po_release && Approval.is_positive a

-- `repos.po_recommendations.release`
unfoldable pub mark_released : String → String → ℕ → Recommendation → Recommendation
mark_released actor erp now rec = record rec {
  status = "RELEASED";
  released_by = actor;
  released_at = some now;
  erp_po_number = erp;
}

-- `PoRecommendationService.release`, of the row that the route has read.
unfoldable pub release :
    Context → String → String → List Approval → Recommendation → Result Recommendation
unfolding is_no_person mark_released
release ctx actor erp approvals rec = do
  refuse_if (not rec.approval_chain_satisfied) Error.policy_violation
  refuse_if (is_no_person ctx.service.unicode actor) Error.policy_violation
  refuse_if (not (any is_order_approval approvals)) Error.policy_violation
  ok (mark_released actor erp ctx.now rec)

-- The case, afterwards.
unfoldable pub place_order : Context → String → SourcingCase → Desk → Result Desk
place_order ctx actor c d =
    if is_state c.state CaseState.po_recommendation
    then (settle (transition CaseState.order_placed actor "Purchase order released" ctx.now c)
        >>= λ placed. save placed d)
    else ok d

-- The body of the approval that the route records.
abbrev pub order_approval : ReleasePoRequest → ApprovalRequest
order_approval body = record {
  reason = body.reason;
  decision = ApprovalDecision.approved;
  subject_ref = "";
  conditions = [];
}

unfoldable pub release_po :
    Context
    → Principal
    → String
    → ReleasePoRequest
    → Option Recommendation
    → Desk
    → Result (Recommendation × Desk)
unfolding release place_order
release_po ctx p case_id body latest d = do
  require p Permission.po_release
  rec ← found Error.validation latest
  recorded ←
      record_approval ctx p case_id ApprovalType.po_release (order_approval body)
        rec.recommendation_number d
  released ← release ctx p.actor_id body.erp_po_number recorded.1.approvals rec
  c ← found Error.not_found recorded.1.case_row
  after ← place_order ctx p.actor_id c recorded.1
  ok (released, after)
