-- ===== src/Api/Signalled.antt =====
-- What stands behind the signal that releases an RFQ.
use procurement_automation.Prelude.{
  Bool, ◌&&◌, ◌≡◌, refl, ap, ◌∙◌, inl, inr, if◌then◌else◌, Option, none, some, String, Any,
  Bool-cases,
}
use procurement_automation.Errors.{Error, ok}
use procurement_automation.Errors.Chain.{found, bind-ok, ok-injective}
use procurement_automation.Vocabulary.Access.{Permission}
use procurement_automation.Vocabulary.Case.{ApprovalType}
use procurement_automation.Approval
use procurement_automation.Approval.{Approval}
use procurement_automation.Workflow.Step.{Signal}
use procurement_automation.Policy.Access.Duties.{Grants}
use procurement_automation.Api.{Desk, ApprovalRequest, Context}
use procurement_automation.Api.Principal.{Principal, require}
use procurement_automation.Api.Store.{new_approval, record_approval}
use procurement_automation.Api.Recorded.{
  require-Grants, IsRecorded, record_approval-IsRecorded, found-some,
}
use procurement_automation.Api.Technical.{Outcome}
use procurement_automation.Api.Release.{
  Rfq, Answered, issue, try_signal_workflow, decide_release, approve_rfq_release,
}

-- The status of an answer, by whether the decision grants.
abbrev pub status_for : Bool → Outcome
status_for granted = if granted then Outcome.approved else Outcome.rejected

-- A route that answered: the caller, the approval, the status, and the signal exactly on a decision
-- that grants and if the workflow can be reached.
pub record IsSignalGate {A : Type 0} (delivered : Bool) (ctx : Context) (p : Principal)
    (permission : Permission) (a : Approval) (signal : Signal) (d : Desk) (r : Answered A)
    : Type 0 where
  pub permitted : Any (Grants permission) p.roles
  pub recorded : IsRecorded ctx p a d.approvals r.desk.approvals
  pub kept : r.desk.case_row ≡ d.case_row
  pub status : r.status ≡ status_for (Approval.is_positive a)
  pub signalled : r.signalled ≡ (if Approval.is_positive a && delivered then some signal else none)

decide_release-parts :
    (delivered : Bool) (ctx : Context) (p : Principal) (rfq : Rfq) (a : Approval) (d : Desk)
    → let r = decide_release delivered ctx p rfq (a, d) in
      (r.status ≡ status_for (Approval.is_positive a))
      × (r.signalled ≡ (
          if Approval.is_positive a && delivered
          then some (Signal.rfq_released a.approval_id)
          else none))
      × (r.desk ≡ d)
      × (r.subject ≡ (if Approval.is_positive a then issue p.actor_id ctx.now rfq else rfq))
unfolding try_signal_workflow
decide_release-parts delivered ctx p rfq a d = elim (Bool-cases (Approval.is_positive a)) [
  | inl e ↦ rw e (refl, refl, refl, refl)
  | inr e ↦ rw e (refl, refl, refl, refl)
]

-- If `approve_rfq_release` answers, the caller has a role that may release and a name that is no
-- service's, and the valid approval in that name is recorded; the case is left as it was. If the
-- decision grants, the answer is RELEASED, the latest RFQ is issued by the caller now, and the
-- workflow, if it can be reached, is signalled with the id of that approval; otherwise the answer is
-- REJECTED, no signal is sent and the RFQ stays as it was.
pub approve_rfq_release-IsSignalGate :
    (delivered : Bool) (ctx : Context) (p : Principal) (case_id : String) (body : ApprovalRequest)
    (latest : Option Rfq) (d : Desk) (r : Answered Rfq)
    → approve_rfq_release delivered ctx p case_id body latest d ≡ ok r
    → (rfq : Rfq) × (latest ≡ some rfq)
      × IsSignalGate delivered ctx p Permission.rfq_release
          (new_approval ctx p case_id ApprovalType.rfq_release body rfq.rfq_number)
          (Signal.rfq_released ctx.approval_id)
          d
          r
      × (r.subject ≡ (
          if Approval.is_positive
            (new_approval ctx p case_id ApprovalType.rfq_release body rfq.rfq_number)
          then issue p.actor_id ctx.now rfq
          else rfq))
unfolding approve_rfq_release
approve_rfq_release-IsSignalGate delivered ctx p case_id body latest d r h =
    let (_, e1, h1) = bind-ok (require p Permission.rfq_release) _ r h in
    let (rfq, e2, h2) = bind-ok (found Error.validation latest) _ r h1 in
    let (recorded, e3, h3) =
      bind-ok (record_approval ctx p case_id ApprovalType.rfq_release body rfq.rfq_number d) _ r
        h2 in
    let (own, signed, placed) =
      record_approval-IsRecorded ctx p case_id ApprovalType.rfq_release body rfq.rfq_number d
        recorded e3 in
    let (status, sent, desk, subject) =
      decide_release-parts delivered ctx p rfq recorded.0 recorded.1 in
    rw (← ok-injective h3) (
      rfq,
      found-some Error.validation latest rfq e2,
      record {
        permitted = require-Grants p Permission.rfq_release e1;
        recorded = rw (desk, ← own) signed;
        kept = ap (λ x. x.case_row) desk ∙ ap (λ x. x.case_row) placed;
        status = status ∙ ap (λ x. status_for (Approval.is_positive x)) own;
        signalled =
            sent
            ∙ ap
                (λ x.
                  if Approval.is_positive x && delivered
                  then some (Signal.rfq_released x.approval_id)
                  else none)
                own;
      },
      subject ∙ ap (λ x. if Approval.is_positive x then issue p.actor_id ctx.now rfq else rfq) own,
    )
