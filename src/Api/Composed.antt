-- ===== src/Api/Composed.antt =====
-- The route that releases an RFQ and the workflow together.
use procurement_automation.Prelude.{
  ◌&&◌, refl, ℕ, leb, ◌≡◌, sym, ◌∙◌, inl, inr, Bool, true, false, if◌then◌else◌, Option, none, some,
  List, [], ◌∷◌, String, All, Any, arith,
}
use procurement_automation.Errors.{ok}
use procurement_automation.Vocabulary.Access.{Permission}
use procurement_automation.Vocabulary.Case.{ApprovalType}
use procurement_automation.Approval
use procurement_automation.Policy.Access.Duties.{Grants}
use procurement_automation.Workflow.{WorkflowInput}
use procurement_automation.Workflow.Step.{Signal, Event, started, run_events}
use procurement_automation.Workflow.Gates.{gates_before}
use procurement_automation.Workflow.Runs.{
  is_release, was_sent, is_permitted, run_events-is_permitted,
}
use procurement_automation.Api.{Desk, ApprovalRequest, Context}
use procurement_automation.Api.Principal.{Principal}
use procurement_automation.Api.Store.{new_approval}
use procurement_automation.Api.Recorded.{IsRecorded}
use procurement_automation.Api.Release.{Rfq, Answered, approve_rfq_release}
use procurement_automation.Api.Signalled.{approve_rfq_release-IsSignalGate}

-- A signal that an answer of `approve_rfq_release` sent.
pub record IsSent (s : Signal) : Type 0 where
  pub delivered : Bool
  pub context : Context
  pub principal : Principal
  pub case_id : String
  pub body : ApprovalRequest
  pub latest : Option Rfq
  pub desk : Desk
  pub answer : Answered Rfq
  pub answered :
      approve_rfq_release delivered context principal case_id body latest desk ≡ ok answer
  pub sent : answer.signalled ≡ some s

-- Every release signal among the events comes from the route.
abbrev pub IsFromRoute : ℕ × Event → Type 0
IsFromRoute (_, Event.signal (Signal.rfq_released id)) = IsSent (Signal.rfq_released id)
IsFromRoute (_, _) = Unit

-- A release signal with a person of a role that may release behind it, whose recorded approval
-- grants it.
pub record IsPersonal (s : Signal) : Type 0 where
  pub context : Context
  pub principal : Principal
  pub permitted : Any (Grants Permission.rfq_release) principal.roles
  pub approval : Approval.Approval
  pub before : List Approval.Approval
  pub after : List Approval.Approval
  pub recorded : IsRecorded context principal approval before after
  pub granted : Approval.is_positive approval ≡ true
  pub named : s ≡ Signal.rfq_released approval.approval_id

sent_cases :
    (granted delivered : Bool) (s t : Signal)
    → some s ≡ (if granted && delivered then some t else none)
    → (granted ≡ true) × (s ≡ t)
sent_cases true true s t h = (refl, cc)
sent_cases true false s t h = cc
sent_cases false delivered s t h = cc

sent-IsPersonal : (s : Signal) → IsSent s → IsPersonal s
sent-IsPersonal s from =
    let (rfq, _, gate, _) =
      approve_rfq_release-IsSignalGate from.delivered from.context from.principal from.case_id
        from.body from.latest from.desk from.answer from.answered in
    let a =
      new_approval from.context from.principal from.case_id ApprovalType.rfq_release from.body
        rfq.rfq_number in
    let (granted, named) =
      sent_cases (Approval.is_positive a) from.delivered s (Signal.rfq_released a.approval_id)
        (sym from.sent ∙ gate.signalled) in
    record {
      context = from.context;
      principal = from.principal;
      permitted = gate.permitted;
      approval = a;
      before = from.desk.approvals;
      after = from.answer.desk.approvals;
      recorded = gate.recorded;
      granted = granted;
      named = named;
    }

-- Such a release among the events.
abbrev pub IsPersonalRelease : ℕ × Event → Type 0
IsPersonalRelease (_, Event.signal (Signal.rfq_released id)) = IsPersonal (Signal.rfq_released id)
IsPersonalRelease (_, _) = ⊥

was_sent-IsPersonalRelease :
    (events : List (ℕ × Event))
    → All IsFromRoute events
    → was_sent is_release events ≡ true
    → Any IsPersonalRelease events
unfolding was_sent is_release
was_sent-IsPersonalRelease [] from h = cc
was_sent-IsPersonalRelease ((now, Event.signal (Signal.rfq_released id)) ∷ rest) from h =
    inl (sent-IsPersonal (Signal.rfq_released id) from.0)
was_sent-IsPersonalRelease ((now, e) ∷ rest) from h = inr (was_sent-IsPersonalRelease rest from.1 h)

-- If every release signal that a new workflow gets was sent by an answer of `approve_rfq_release`,
-- and the input does not release the RFQ by itself, then a run that is behind the release (it
-- invites suppliers, or has come further) has got one from a caller with a role that may
-- release and a name that is no service's, whose recorded approval grants it and has the id that the
-- signal carries.
pub invited-IsPersonalRelease :
    (raises : Bool) (inp : WorkflowInput) (events : List (ℕ × Event))
    → inp.auto_release_rfq ≡ false
    → All IsFromRoute events
    → leb 1 (gates_before (run_events raises inp events (started inp)).point) ≡ true
    → Any IsPersonalRelease events
unfolding is_permitted
invited-IsPersonalRelease raises inp events manual from behind =
    let permitted = run_events-is_permitted raises inp events in
    was_sent-IsPersonalRelease events from (ground arith)
