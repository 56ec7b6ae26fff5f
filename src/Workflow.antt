-- ===== src/Workflow.antt =====
-- The durable workflow (procureguard/workflows/procurement.py): its input, its state, and the
-- places where it waits. Logging is not modelled.
pub mod Collect
pub mod Negotiate
pub mod Step
pub mod Runs
pub mod Gates
pub mod Loops
use procurement_automation.Prelude.{
  ℕ, ◌*◌, Bool, true, false, not, ◌&&◌, ◌||◌, if◌then◌else◌, Option, List, [], ◌∷◌, String,
}
use procurement_automation.Prelude.Dict
use procurement_automation.Prelude.Dict.{Dict}

-- `ProcurementWorkflowInput`: what the workflow itself reads.
pub record WorkflowInput : Type 0 where
  pub case_id : String
  pub quote_window_days : ℕ
  pub reminder_interval_hours : ℕ
  pub max_reminders : ℕ
  pub enable_negotiation : Bool
  pub auto_release_rfq : Bool

pub data Stage : Type 0 where
  received validating_pr waiting_for_engineering sourcing_strategy ready_for_rfq : Stage
  waiting_for_rfq_release waiting_for_quotes technical_evaluation : Stage
  waiting_for_technical_approval commercial_evaluation waiting_for_negotiation_approval : Stage
  negotiation waiting_for_award_approval po_recommendation expediting completed failed : Stage

-- `ProcurementWorkflowState`, without `last_error`, which nothing writes.
pub record WorkflowState : Type 0 where
  pub case_id : String
  pub stage : Stage
  pub rfq_id : String
  pub rfq_released : Bool
  pub rfq_release_approval_id : String
  pub technical_approved : Bool
  pub technical_approver : String
  pub award_approved : Bool
  pub award_supplier_id : String
  pub negotiation_round_id : String
  pub negotiation_approval_id : String
  pub negotiation_approved : Bool
  pub negotiation_rounds_run : ℕ
  pub supplier_responses : Dict Bool
  pub engineering_ready : Bool
  pub cancelled : Bool
  pub cancellation_reason : String
  pub failed : Bool
  pub failure_reason : String
  pub quotes_received : ℕ
  pub l1_vendor_id : String
  pub l1_total_base : String
  pub po_recommendation_id : String

unfoldable pub initial_state : String → WorkflowState
initial_state case_id = record {
  case_id = case_id;
  stage = Stage.received;
  rfq_id = "";
  rfq_released = false;
  rfq_release_approval_id = "";
  technical_approved = false;
  technical_approver = "";
  award_approved = false;
  award_supplier_id = "";
  negotiation_round_id = "";
  negotiation_approval_id = "";
  negotiation_approved = false;
  negotiation_rounds_run = 0;
  supplier_responses = [];
  engineering_ready = false;
  cancelled = false;
  cancellation_reason = "";
  failed = false;
  failure_reason = "";
  quotes_received = 0;
  l1_vendor_id = "";
  l1_total_base = "";
  po_recommendation_id = "";
}

-- The dictionaries that the activities give, as one record of the entries that are read.
pub record Answer : Type 0 where
  pub needs_engineering : Bool
  pub selected_vendor_ids : List String
  pub rfq_id : String
  pub supplier_ids : List String
  pub processed : Bool
  pub quotes_received : ℕ
  pub pending_supplier_ids : List String
  pub may_evaluate : Bool
  pub sent_or_held : Bool
  pub l1_vendor_id : String
  pub l1_total_base : String
  pub recommendation_created : Bool
  pub round_id : String
  pub recommendation_id : String
  pub due : Bool

-- How a run ends: as COMPLETED, with `_result` of a stopped workflow, as FAILED, or with an
-- exception that the workflow does not catch.
pub data Ending : Type 0 where
  as_completed as_stopped as_failed as_crashed : Ending

-- The calls of activities, in the order of the code; those of a loop with what is left of it.
pub data Call : Type 0 where
  recording validating validating_again extracting benchmarking shortlisting preparing : Call
  inviting polling checking checking_due : Call
  reminding : String → List String → Call
  checking_last closing_rfq evaluating unsealing pricing : Call
  planning sending_round polling_round closing_round pricing_again : Call
  recommending scheduling : Call
  expediting : ℕ → Call
  finalizing failing : Call

-- The conditions that are waited for.
pub data Wait : Type 0 where
  waiting_engineering waiting_release pausing waiting_technical : Wait
  waiting_negotiation pausing_round waiting_award : Wait
  pausing_expedite : ℕ → Wait

-- Where a run stands: at an await, or at its end.
pub data Point : Type 0 where
  calls : Call → Point
  waits : Wait → Point
  ended : Ending → Point

-- The local variables of `_collect_quotes` and `_run_negotiation`.
pub record Locals : Type 0 where
  pub deadline : ℕ
  pub last_reminder : ℕ
  pub reminders_sent : Dict ℕ
  pub response_deadline : ℕ

pub record Run : Type 0 where
  pub state : WorkflowState
  pub point : Point
  pub locals : Locals

abbrev pub at_point : Point → Run → Run
at_point p r = record r { point = p }

-- `_set_stage` and on to the next await.
abbrev pub at_stage : Stage → Point → Run → Run
at_stage s p r = record r { state = record (r.state) { stage = s }; point = p }

-- `_stop`
abbrev pub stops : WorkflowState → Bool
stops s = s.cancelled || s.failed

-- `if self._stop(): return self._result()`
abbrev pub unless_stopped : Run → Run → Run
unless_stopped next r = if stops r.state then at_point (Point.ended Ending.as_stopped) r else next

-- `_fail`, up to its call.
abbrev pub fail_with : String → Run → Run
fail_with reason r = record r {
  state = record (r.state) { failed = true; failure_reason = reason; stage = Stage.failed };
  point = Point.calls Call.failing;
}

-- `timedelta`, in microseconds.
abbrev pub days : ℕ → ℕ
days n = n * 86_400_000_000
