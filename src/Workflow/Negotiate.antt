-- ===== src/Workflow/Negotiate.antt =====
-- `_run_negotiation` and `_expedite`, and the human gates of `run`.
use procurement_automation.Prelude.{
  ℕ, zero, suc, ◌+◌, ltb, Bool, false, not, ◌&&◌, ◌||◌, if◌then◌else◌, String, str_eq,
}
use procurement_automation.Workflow.{
  WorkflowInput, Stage, Answer, Call, Wait, Point, Run, at_point, at_stage, unless_stopped, days,
}

-- A human gate: the wait is over when its flag is set or the workflow is cancelled, and then the
-- run goes on unless it is stopped.
abbrev pub gate : Bool → (Run → Run) → Run → Run
gate given go waiting =
    if given || waiting.state.cancelled then unless_stopped (go waiting) waiting else waiting

abbrev pub gate_engineering : Run → Run
gate_engineering r =
    gate r.state.engineering_ready (at_point (Point.calls Call.validating_again))
      (at_stage Stage.waiting_for_engineering (Point.waits Wait.waiting_engineering) r)

abbrev pub gate_release : Run → Run
gate_release r =
    gate r.state.rfq_released (at_point (Point.calls Call.inviting))
      (at_stage Stage.waiting_for_rfq_release (Point.waits Wait.waiting_release) r)

abbrev pub gate_technical : Run → Run
gate_technical r =
    gate r.state.technical_approved (at_point (Point.calls Call.unsealing))
      (at_stage Stage.waiting_for_technical_approval (Point.waits Wait.waiting_technical) r)

abbrev pub gate_award : Run → Run
gate_award r =
    gate r.state.award_approved (at_stage Stage.po_recommendation (Point.calls Call.recommending))
      (at_stage Stage.waiting_for_award_approval (Point.waits Wait.waiting_award) r)

-- The wait for the release of a negotiation round, while its 7 days run.
abbrev pub gate_negotiation : Run → Run
gate_negotiation r =
    gate r.state.negotiation_approved (at_stage Stage.negotiation (Point.calls Call.sending_round))
      (at_stage Stage.waiting_for_negotiation_approval (Point.waits Wait.waiting_negotiation) r)

-- After a negotiation, whether there was one or not: the rest of `run`.
abbrev pub leave_negotiation : Run → Run
leave_negotiation r = unless_stopped (gate_award r) r

-- After the plan: wait for its release, if there is one.
unfoldable pub after_plan : Answer → Run → Run
after_plan a r =
    if a.recommendation_created
    then gate_negotiation (record r {
      state = record (r.state) { negotiation_round_id = a.round_id; negotiation_approved = false };
    })
    else leave_negotiation r

-- The head of the loop that waits for replies.
abbrev pub round_loop : ℕ → Run → Run
round_loop now r =
    if ltb now r.locals.response_deadline && not r.state.cancelled
    then at_point (Point.calls Call.polling_round) r
    else at_point (Point.calls Call.closing_round) r

unfoldable pub after_sending : ℕ → Run → Run
after_sending now r =
    round_loop now (record r { locals = record (r.locals) { response_deadline = now + days 7 } })

-- The wait in that loop, which a cancellation ends together with the negotiation.
abbrev pub pause_round : Run → Run
pause_round r =
    if r.state.cancelled then leave_negotiation r else at_point (Point.waits Wait.pausing_round) r

-- `text or default`
abbrev pub or_text : String → String → String
or_text s default = if str_eq s "" then default else s

abbrev pub note_l1 : String → String → Run → Run
note_l1 vendor total r = record r {
  state = record (r.state) { l1_vendor_id = vendor; l1_total_base = total };
}

-- After the first evaluation of prices.
unfoldable pub after_pricing : WorkflowInput → Answer → Run → Run
after_pricing inp a r =
    let noted = note_l1 a.l1_vendor_id a.l1_total_base r in
    if inp.enable_negotiation then at_point (Point.calls Call.planning) noted else gate_award noted

-- After the one that follows a negotiation.
unfoldable pub after_repricing : Answer → Run → Run
after_repricing a r = leave_negotiation (
    note_l1 (or_text a.l1_vendor_id r.state.l1_vendor_id)
      (or_text a.l1_total_base r.state.l1_total_base) r)

-- `_expedite`: the head of its loop, with the rounds that are left; afterwards the case is
-- finalized as COMPLETED.
unfoldable pub expedite_loop : ℕ → Run → Run
expedite_loop zero r = at_point (Point.calls Call.finalizing) r
expedite_loop (suc left) r =
    if r.state.cancelled
    then at_point (Point.calls Call.finalizing) r
    else at_point (Point.calls (Call.expediting left)) r

-- The wait of a day, which a cancellation ends.
unfoldable pub after_reminding : ℕ → Answer → Run → Run
unfolding expedite_loop
after_reminding left a r =
    if not a.due
    then at_point (Point.calls Call.finalizing) r
    else if r.state.cancelled
    then expedite_loop left r
    else at_point (Point.waits (Wait.pausing_expedite left)) r
