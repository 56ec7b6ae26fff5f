-- ===== src/Api/Release.antt =====
-- `approve_rfq_release` and `approve_negotiation` (procureguard/api/routes/approvals.py): the routes
-- that send the workflow its signals to release an RFQ and a negotiation round.
use procurement_automation.Prelude.{Bool, ℕ, not, if◌then◌else◌, Option, none, some, String}
use procurement_automation.Errors.{Error, Result, ok}
use procurement_automation.Errors.Chain.{◌>>=◌, ◌>>◌, found}
use procurement_automation.Vocabulary.Access.{Permission}
use procurement_automation.Vocabulary.Case.{ApprovalType}
use procurement_automation.Approval
use procurement_automation.Approval.{Approval}
use procurement_automation.Workflow.Step.{Signal}
use procurement_automation.Api.{Desk, ApprovalRequest, Context}
use procurement_automation.Api.Principal.{Principal, require}
use procurement_automation.Api.Store.{record_approval}
use procurement_automation.Api.Technical.{Outcome}

-- A row of `rfqs`: what its release reads and writes.
pub record Rfq : Type 0 where
  pub rfq_number : String
  pub status : String
  pub released_by : String
  pub released_at : Option ℕ
  pub issue_date : Option ℕ

-- A row of `negotiation_rounds`: the text of its number.
pub record NegotiationRound : Type 0 where
  pub round_number : String

abbrev pub or_now : Option ℕ → ℕ → Option ℕ
or_now none now = some now
or_now (some t) now = some t

-- `repos.rfqs.release`
unfoldable pub issue : String → ℕ → Rfq → Rfq
issue actor now rfq = record rfq {
  status = "ISSUED";
  released_by = actor;
  released_at = some now;
  issue_date = or_now rfq.issue_date now;
}

-- The answer of a route: its status, where RELEASED is `approved` too, and the signal that the
-- workflow gets, if any.
pub record Answered (A : Type 0) : Type 0 where
  pub status : Outcome
  pub subject : A
  pub signalled : Option Signal
  pub desk : Desk

-- `try_signal_workflow`: a signal that cannot be delivered is logged and changes nothing else.
unfoldable pub try_signal_workflow : Bool → Signal → Option Signal
try_signal_workflow delivered signal = if delivered then some signal else none

abbrev pub decide_release : Bool → Context → Principal → Rfq → Approval × Desk → Answered Rfq
decide_release delivered ctx p rfq (a, d) =
    if not (Approval.is_positive a)
    then record { status = Outcome.rejected; subject = rfq; signalled = none; desk = d }
    else record {
      status = Outcome.approved;
      subject = issue p.actor_id ctx.now rfq;
      signalled = try_signal_workflow delivered (Signal.rfq_released a.approval_id);
      desk = d;
    }

-- The latest RFQ of the case is an argument, and so is whether the workflow can be reached.
unfoldable pub approve_rfq_release :
    Bool
    → Context
    → Principal
    → String
    → ApprovalRequest
    → Option Rfq
    → Desk
    → Result (Answered Rfq)
unfolding issue try_signal_workflow
approve_rfq_release delivered ctx p case_id body latest d = do
  require p Permission.rfq_release
  rfq ← found Error.validation latest
  recorded ← record_approval ctx p case_id ApprovalType.rfq_release body rfq.rfq_number d
  ok (decide_release delivered ctx p rfq recorded)

abbrev pub decide_round : Bool → NegotiationRound → Approval × Desk → Answered NegotiationRound
decide_round delivered round (a, d) =
    if not (Approval.is_positive a)
    then record { status = Outcome.rejected; subject = round; signalled = none; desk = d }
    else record {
      status = Outcome.approved;
      subject = round;
      signalled = try_signal_workflow delivered (Signal.negotiation_approved a.approval_id);
      desk = d;
    }

-- The current round of the case is an argument, and so is whether the workflow can be reached.
unfoldable pub approve_negotiation :
    Bool
    → Context
    → Principal
    → String
    → ApprovalRequest
    → Option NegotiationRound
    → Desk
    → Result (Answered NegotiationRound)
unfolding try_signal_workflow
approve_negotiation delivered ctx p case_id body current d = do
  require p Permission.negotiation_send
  round ← found Error.validation current
  recorded ← record_approval ctx p case_id ApprovalType.negotiation_send body round.round_number d
  ok (decide_round delivered round recorded)
