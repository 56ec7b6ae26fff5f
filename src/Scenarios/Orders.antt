-- ===== src/Scenarios/Orders.antt =====
-- An RFQ and a negotiation round are released; a purchase order is released for a case that waits
-- for it, and for one that was cancelled.
use procurement_automation.Prelude.{
  false, ℕ, List, Any, ◌++◌, ◌≡◌, refl, true, some, none, [], ◌∷◌, if◌then◌else◌,
}
use procurement_automation.Prelude.Text.{strip, upper, eq_codes, is_one_of}
use procurement_automation.Errors.{Error, Result, ok, err}
use procurement_automation.Vocabulary.Case.{CaseState, ApprovalType}
use procurement_automation.Vocabulary.Access.{
  Permission, Permission-discrete, role_of, role_permissions,
}
use procurement_automation.Case.{new_case, moved, can_transition, transition, is_state}
use procurement_automation.Case.Graph.{can_move}
use procurement_automation.Approval
use procurement_automation.Policy.Access.{has_permission, permissions_for_roles}
use procurement_automation.Policy.Gate.{is_type}
use procurement_automation.Api.{Desk}
use procurement_automation.Api.Principal.{require, require_human, is_human}
use procurement_automation.Api.Store.{new_approval, save, save_row, last_200, record_approval}
use procurement_automation.Api.Order.{
  Recommendation, ReleasePoRequest, is_no_person, mark_released, release, place_order, release_po,
}
use procurement_automation.Api.Released.{IsOrderGate, release_po-IsOrderGate}
use procurement_automation.Workflow.Step.{Signal}
use procurement_automation.Api.Release.{
  Rfq, Answered, issue, approve_rfq_release, approve_negotiation,
}
use procurement_automation.Api.Technical.{Outcome}
use procurement_automation.Api.Signalled.{IsSignalGate, approve_rfq_release-IsSignalGate}
use procurement_automation.Api.Composed.{IsSent, IsPersonalRelease, invited-IsPersonalRelease}
use procurement_automation.Workflow.Step.{Event, started, run_events}
use procurement_automation.Workflow.Gates.{gates_before}
use procurement_automation.Scenarios.Workflows.{input, to_release, signals}
use procurement_automation.Scenarios.Gates.{context, person, request, desk}

abbrev draft : Recommendation
draft = record {
  recommendation_number = "PO-1";
  status = "RECOMMENDED";
  approval_chain_satisfied = true;
  released_by = "";
  released_at = none;
  erp_po_number = "";
}

abbrev body : ReleasePoRequest
body = record { erp_po_number = "4500000001"; reason = "Released for ERP creation" }

abbrev answer_for : CaseState → Result (Recommendation × Desk)
answer_for state =
    release_po context (person "bea" "PROCUREMENT_HEAD") "C1" body (some draft) (desk state)

abbrev released_or_draft : Result (Recommendation × Desk) → Recommendation × Desk
released_or_draft (ok r) = r
released_or_draft (err _) = (draft, desk CaseState.received)

abbrev released : Recommendation × Desk
released = released_or_draft (answer_for CaseState.po_recommendation)

release_run : answer_for CaseState.po_recommendation ≡ ok released
unfolding release_po require has_permission permissions_for_roles role_of role_permissions
    record_approval require_human is_human Approval.validate strip new_case is_type
    Approval.is_positive transition can_transition can_move is_state moved save save_row last_200
    upper is_one_of Permission-discrete eq_codes release place_order is_no_person mark_released
release_run = refl

-- The order of a cancelled case is released all the same.
test_cancelled : (released_or_draft (answer_for CaseState.cancelled)).0.status ≡ "RELEASED"
unfolding release_po require has_permission permissions_for_roles role_of role_permissions
    record_approval require_human is_human Approval.validate strip new_case is_type
    Approval.is_positive transition can_transition can_move is_state moved save save_row last_200
    upper is_one_of Permission-discrete eq_codes release place_order is_no_person mark_released
test_cancelled = refl

release_po-IsOrderGate_example :
    IsOrderGate context
      (person "bea" "PROCUREMENT_HEAD")
      "C1"
      body
      (some draft)
      (desk CaseState.po_recommendation)
      released
release_po-IsOrderGate_example =
    release_po-IsOrderGate context (person "bea" "PROCUREMENT_HEAD") "C1" body (some draft)
      (desk CaseState.po_recommendation) released release_run

abbrev rfq : Rfq
rfq = record {
  rfq_number = "RFQ-1";
  status = "DRAFT";
  released_by = "";
  released_at = none;
  issue_date = none;
}

abbrev released_rfq : Answered Rfq
released_rfq = record {
  status = Outcome.approved;
  subject = issue "bea" 9 rfq;
  signalled = some (Signal.rfq_released "AP1");
  desk = record (desk CaseState.ready_for_rfq) {
    approvals =
        new_approval context (person "bea" "SENIOR_BUYER") "C1" ApprovalType.rfq_release request
          "RFQ-1"
        ∷ [];
  };
}

rfq_run :
    approve_rfq_release true context
      (person "bea" "SENIOR_BUYER")
      "C1"
      request
      (some rfq)
      (desk CaseState.ready_for_rfq)
    ≡ ok released_rfq
unfolding approve_rfq_release require has_permission permissions_for_roles role_of role_permissions
    record_approval require_human is_human Approval.validate strip new_case Approval.is_positive
    upper is_one_of Permission-discrete eq_codes issue
rfq_run = refl

-- The RFQ is released as well when the workflow cannot be reached.
test_unreachable :
    approve_rfq_release false context
      (person "bea" "SENIOR_BUYER")
      "C1"
      request
      (some rfq)
      (desk CaseState.ready_for_rfq)
    ≡ ok (record released_rfq { signalled = none })
unfolding approve_rfq_release require has_permission permissions_for_roles role_of role_permissions
    record_approval require_human is_human Approval.validate strip new_case Approval.is_positive
    upper is_one_of Permission-discrete eq_codes issue
test_unreachable = refl

-- A caller who may not send is refused.
test_negotiation :
    approve_negotiation true context
      (person "anna" "ENGINEER")
      "C1"
      request
      (some (record { round_number = "1" }))
      (desk CaseState.commercial_evaluation)
    ≡ err Error.authorization
unfolding approve_negotiation require has_permission permissions_for_roles role_of role_permissions
    record_approval require_human is_human Approval.validate strip new_case Approval.is_positive
    upper is_one_of Permission-discrete eq_codes
test_negotiation = refl

approve_rfq_release-IsSignalGate_example :
    (r : Rfq) × (some rfq ≡ some r)
    × IsSignalGate true context
        (person "bea" "SENIOR_BUYER")
        Permission.rfq_release
        (new_approval context
          (person "bea" "SENIOR_BUYER")
          "C1"
          ApprovalType.rfq_release
          request
          r.rfq_number)
        (Signal.rfq_released "AP1")
        (desk CaseState.ready_for_rfq)
        released_rfq
    × (released_rfq.subject ≡ (
        if Approval.is_positive (
          new_approval context
            (person "bea" "SENIOR_BUYER")
            "C1"
            ApprovalType.rfq_release
            request
            r.rfq_number)
        then issue "bea" 9 r
        else r))
approve_rfq_release-IsSignalGate_example =
    approve_rfq_release-IsSignalGate true context (person "bea" "SENIOR_BUYER") "C1" request
      (some rfq) (desk CaseState.ready_for_rfq) released_rfq rfq_run

-- The workflow up to the release, and the signal that the route has sent.
abbrev released_events : List (ℕ × Event)
released_events = to_release ++ signals (Signal.rfq_released "AP1") ∷ []

release-IsSent : IsSent (Signal.rfq_released "AP1")
release-IsSent = record {
  delivered = true;
  context = context;
  principal = person "bea" "SENIOR_BUYER";
  case_id = "C1";
  body = request;
  latest = some rfq;
  desk = desk CaseState.ready_for_rfq;
  answer = released_rfq;
  answered = rfq_run;
  sent = refl;
}

invited-IsPersonalRelease_example : Any IsPersonalRelease released_events
unfolding gates_before run_events started
invited-IsPersonalRelease_example =
    invited-IsPersonalRelease true input released_events refl
      (tt, (tt, (tt, (tt, (tt, (tt, (release-IsSent, tt))))))) refl
