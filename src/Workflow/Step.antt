-- ===== src/Workflow/Step.antt =====
-- One step of a run: a signal, the answer or the exception of the activity that is awaited, or the
-- end of a wait's time. `run` of procureguard/workflows/procurement.py is what the steps go through.
use procurement_automation.Prelude.{
  ℕ, ◌+◌, Bool, true, if◌then◌else◌, List, [], ◌∷◌, String, is_empty,
}
use procurement_automation.Prelude.Dict
use procurement_automation.Workflow.{
  WorkflowInput, Stage, WorkflowState, Answer, Ending, Call, Wait, Point, Run, at_point, at_stage,
  fail_with, initial_state,
}
use procurement_automation.Workflow.Collect.{
  leave_collect, collect_loop, pause, chase, start_collect, after_status, remind_next,
  after_reminder,
}
use procurement_automation.Workflow.Negotiate.{
  gate_engineering, gate_release, gate_technical, gate_negotiation, gate_award, leave_negotiation,
  after_plan, round_loop, after_sending, pause_round, after_pricing, after_repricing, expedite_loop,
  after_reminding,
}

-- The signals.
pub data Signal : Type 0 where
  engineering_information_received : Signal
  rfq_released supplier_response_received technical_approval_received : String → Signal
  negotiation_approved award_approval_received cancel : String → Signal

-- What a signal writes.
unfoldable pub note_signal : Signal → WorkflowState → WorkflowState
note_signal Signal.engineering_information_received s = record s { engineering_ready = true }
note_signal (Signal.rfq_released id) s = record s {
  rfq_released = true;
  rfq_release_approval_id = id;
}
note_signal (Signal.supplier_response_received id) s = record s {
  supplier_responses = Dict.put s.supplier_responses id true;
}
note_signal (Signal.technical_approval_received actor) s = record s {
  technical_approved = true;
  technical_approver = actor;
}
note_signal (Signal.negotiation_approved id) s = record s {
  negotiation_approved = true;
  negotiation_approval_id = id;
}
note_signal (Signal.award_approval_received id) s = record s {
  award_approved = true;
  award_supplier_id = id;
}
note_signal (Signal.cancel reason) s = record s { cancelled = true; cancellation_reason = reason }

-- After a signal the condition that is waited for is tried again.
unfoldable pub retry : Wait → Run → Run
unfolding expedite_loop
retry Wait.waiting_engineering r = gate_engineering r
retry Wait.waiting_release r = gate_release r
retry Wait.waiting_technical r = gate_technical r
retry Wait.waiting_negotiation r = gate_negotiation r
retry Wait.waiting_award r = gate_award r
retry Wait.pausing r = pause r
retry Wait.pausing_round r = pause_round r
retry (Wait.pausing_expedite left) r = if r.state.cancelled then expedite_loop left r else r

-- The time of a wait is over. `raises` says whether `workflow.wait_condition` then raises a
-- TimeoutError, as temporalio's own documentation has it, or returns: of the four waits with a
-- time only the one for the release of a round catches it, in `_wait_for`.
unfoldable pub expire : Bool → ℕ → Wait → Run → Run
unfolding expedite_loop
expire raises now Wait.pausing r =
    if raises then at_point (Point.ended Ending.as_crashed) r else collect_loop now r
expire raises now Wait.waiting_negotiation r = leave_negotiation r
expire raises now Wait.pausing_round r =
    if raises then at_point (Point.ended Ending.as_crashed) r else round_loop now r
expire raises now Wait.waiting_engineering r = r
expire raises now Wait.waiting_release r = r
expire raises now Wait.waiting_technical r = r
expire raises now Wait.waiting_award r = r
expire raises now (Wait.pausing_expedite left) r =
    if raises then at_point (Point.ended Ending.as_crashed) r else expedite_loop left r

-- The awaited activity answers.
unfoldable pub proceed : WorkflowInput → ℕ → Answer → Call → Run → Run
unfolding start_collect after_status chase after_reminder remind_next after_plan after_sending
    after_pricing after_repricing expedite_loop after_reminding
proceed inp now a Call.recording r = at_stage Stage.validating_pr (Point.calls Call.validating) r
proceed inp now a Call.validating r =
    if a.needs_engineering
    then gate_engineering r
    else at_stage Stage.sourcing_strategy (Point.calls Call.extracting) r
proceed inp now a Call.validating_again r =
    if a.needs_engineering
    then fail_with "Requisition still cannot be sourced after engineering input" r
    else at_stage Stage.sourcing_strategy (Point.calls Call.extracting) r
proceed inp now a Call.extracting r = at_point (Point.calls Call.benchmarking) r
proceed inp now a Call.benchmarking r = at_point (Point.calls Call.shortlisting) r
proceed inp now a Call.shortlisting r =
    if is_empty a.selected_vendor_ids
    then fail_with "No supplier could be shortlisted; manual sourcing is required" r
    else at_stage Stage.ready_for_rfq (Point.calls Call.preparing) r
proceed inp now a Call.preparing r =
    let prepared = record r { state = record (r.state) { rfq_id = a.rfq_id } } in
    if inp.auto_release_rfq
    then at_point (Point.calls Call.inviting) prepared
    else gate_release prepared
proceed inp now a Call.inviting r = start_collect inp now a r
proceed inp now a Call.polling r =
    if a.processed then at_point (Point.calls Call.checking) r else chase inp now r
proceed inp now a Call.checking r = after_status inp now a r
proceed inp now a Call.checking_due r = remind_next inp a.pending_supplier_ids r
proceed inp now a (Call.reminding s rest) r = after_reminder inp s rest a r
proceed inp now a Call.checking_last r =
    leave_collect (record r { state = record (r.state) { quotes_received = a.quotes_received } })
proceed inp now a Call.closing_rfq r =
    at_stage Stage.technical_evaluation (Point.calls Call.evaluating) r
proceed inp now a Call.evaluating r = gate_technical r
proceed inp now a Call.unsealing r =
    at_stage Stage.commercial_evaluation (Point.calls Call.pricing) r
proceed inp now a Call.pricing r = after_pricing inp a r
proceed inp now a Call.planning r = after_plan a r
proceed inp now a Call.sending_round r = after_sending now r
proceed inp now a Call.polling_round r = pause_round r
proceed inp now a Call.closing_round r = at_point (Point.calls Call.pricing_again) (record r {
  state = record (r.state) { negotiation_rounds_run = r.state.negotiation_rounds_run + 1 };
})
proceed inp now a Call.pricing_again r = after_repricing a r
proceed inp now a Call.recommending r =
    at_point (Point.calls Call.scheduling)
      (record r { state = record (r.state) { po_recommendation_id = a.recommendation_id } })
proceed inp now a Call.scheduling r =
    expedite_loop 60 (at_stage Stage.expediting (Point.calls Call.scheduling) r)
proceed inp now a (Call.expediting left) r = after_reminding left a r
proceed inp now a Call.finalizing r = at_stage Stage.completed (Point.ended Ending.as_completed) r
proceed inp now a Call.failing r = at_point (Point.ended Ending.as_failed) r

-- The awaited activity raises.
unfoldable pub give_up : String → Call → Run → Run
give_up why Call.recording r = at_point (Point.ended Ending.as_crashed) r
give_up why Call.failing r = at_point (Point.ended Ending.as_failed) r
give_up why _ r = fail_with why r

pub data Event : Type 0 where
  signal : Signal → Event
  answer : Answer → Event
  raised : String → Event
  expired : Event

-- An event at a point; one that the point does not wait for changes nothing, and a signal is noted
-- at every await.
unfoldable pub step_at : Bool → WorkflowInput → ℕ → Event → Point → Run → Run
unfolding note_signal retry expire proceed give_up
step_at raises inp now (Event.signal s) (Point.waits w) r =
    retry w (record r { state = note_signal s r.state })
step_at raises inp now (Event.signal s) (Point.calls _) r = record r {
  state = note_signal s r.state;
}
step_at raises inp now Event.expired (Point.waits w) r = expire raises now w r
step_at raises inp now (Event.answer a) (Point.calls c) r = proceed inp now a c r
step_at raises inp now (Event.raised why) (Point.calls c) r = give_up why c r
step_at raises inp now _ _ r = r

abbrev pub step : Bool → WorkflowInput → ℕ → Event → Run → Run
step raises inp now e r = step_at raises inp now e r.point r

-- `run`, before anything has happened.
unfoldable pub started : WorkflowInput → Run
unfolding initial_state
started inp = record {
  state = initial_state inp.case_id;
  point = (Point.calls Call.recording);
  locals = record { deadline = 0; last_reminder = 0; reminders_sent = []; response_deadline = 0 };
}

-- Events with their times, in order.
unfoldable pub run_events : Bool → WorkflowInput → List (ℕ × Event) → Run → Run
unfolding step_at
run_events raises inp [] r = r
run_events raises inp ((now, e) ∷ rest) r = run_events raises inp rest (step raises inp now e r)
