-- ===== src/Workflow/Gates.antt =====
-- The three human gates that `run` of procureguard/workflows/procurement.py does not skip: which
-- awaits lie behind them, and that a call leads past a gate only when its flag is set.
use procurement_automation.Prelude.{
  ℕ, zero, suc, ltb, leb, Bool, true, false, ◌||◌, ◌&&◌, if◌then◌else◌, ◌≡◌, List, [], ◌∷◌, String,
  arith, ap, ◌∙◌,
}
use procurement_automation.Prelude.Dict
use procurement_automation.Workflow.{
  WorkflowInput, Stage, WorkflowState, Answer, Ending, Call, Wait, Point, Run, at_point, at_stage,
}
use procurement_automation.Workflow.Collect.{
  all_responded, chase, start_collect, note_status, after_status, remind_next, count_reminder,
  after_reminder,
}
use procurement_automation.Workflow.Negotiate.{
  after_plan, after_sending, after_pricing, after_repricing, expedite_loop, after_reminding,
}
use procurement_automation.Workflow.Step.{retry, expire, proceed}

-- How many of the gates lie before a point: the release of the RFQ, the technical approval, the
-- award.
unfoldable pub gates_before : Point → ℕ
gates_before (Point.calls Call.inviting) = 1
gates_before (Point.calls Call.polling) = 1
gates_before (Point.calls Call.checking) = 1
gates_before (Point.calls Call.checking_due) = 1
gates_before (Point.calls (Call.reminding _ _)) = 1
gates_before (Point.waits Wait.pausing) = 1
gates_before (Point.calls Call.checking_last) = 1
gates_before (Point.calls Call.closing_rfq) = 1
gates_before (Point.calls Call.evaluating) = 1
gates_before (Point.waits Wait.waiting_technical) = 1
gates_before (Point.calls Call.unsealing) = 2
gates_before (Point.calls Call.pricing) = 2
gates_before (Point.calls Call.planning) = 2
gates_before (Point.waits Wait.waiting_negotiation) = 2
gates_before (Point.calls Call.sending_round) = 2
gates_before (Point.calls Call.polling_round) = 2
gates_before (Point.waits Wait.pausing_round) = 2
gates_before (Point.calls Call.closing_round) = 2
gates_before (Point.calls Call.pricing_again) = 2
gates_before (Point.waits Wait.waiting_award) = 2
gates_before (Point.calls Call.recommending) = 3
gates_before (Point.calls Call.scheduling) = 3
gates_before (Point.calls (Call.expediting _)) = 3
gates_before (Point.waits (Wait.pausing_expedite _)) = 3
gates_before (Point.calls Call.finalizing) = 3
gates_before (Point.ended Ending.as_completed) = 3
gates_before _ = 0

-- The flags of the gates before a point are set, and `fits` the flags.
unfoldable pub covers : Bool → (Bool → Bool → Bool → Bool) → Point → WorkflowState → Bool
unfolding gates_before
covers auto fits p s =
    (ltb (gates_before p) 1 || auto || s.rfq_released)
    && (ltb (gates_before p) 2 || s.technical_approved)
    && (ltb (gates_before p) 3 || s.award_approved)
    && fits s.rfq_released s.technical_approved s.award_approved

module _ (auto : Bool) (fits : Bool → Bool → Bool → Bool) where
  abbrev at_state : Point → WorkflowState → Bool
  at_state = covers auto fits

  abbrev pub is_covered : Run → Bool
  is_covered r = at_state r.point r.state

  pub covered-here :
      {p : Point} → (r : Run) → r.point ≡ p → at_state p r.state ≡ true → is_covered r ≡ true
  covered-here r is_at at = ap (λ q. at_state q r.state) is_at ∙ at

  covered-if :
      (b : Bool)
      → (x y : Run) → is_covered x ≡ true
      → is_covered y ≡ true
      → is_covered (if b then x else y) ≡ true
  covered-if true x y at_x at_y = at_x
  covered-if false x y at_x at_y = at_y

  covered-remind_next :
      (inp : WorkflowInput)
      → (pending : List String) → (r : Run) → at_state (Point.calls Call.polling) r.state ≡ true
      → is_covered (remind_next inp pending r) ≡ true
  unfolding covers remind_next
  covered-remind_next inp [] r at =
      covered-if (r.state.cancelled || all_responded r.state.supplier_responses)
        (at_point (Point.calls Call.checking_last) r) (at_point (Point.waits Wait.pausing) r) at at
  covered-remind_next inp (s ∷ rest) r at =
      covered-if (leb inp.max_reminders (Dict.get_or r.locals.reminders_sent s 0))
        (remind_next inp rest r) (at_point (Point.calls (Call.reminding s rest)) r)
        (covered-remind_next inp rest r at) at

  covered-expedite_loop :
      (left : ℕ)
      → (r : Run) → at_state (Point.calls Call.finalizing) r.state ≡ true
      → is_covered (expedite_loop left r) ≡ true
  unfolding covers expedite_loop
  covered-expedite_loop zero r at = at
  covered-expedite_loop (suc left) r at = ground arith

  covered-chase :
      (inp : WorkflowInput)
      → (now : ℕ) → (r : Run) → at_state (Point.calls Call.polling) r.state ≡ true
      → is_covered (chase inp now r) ≡ true
  unfolding covers chase
  covered-chase inp now r at = ground arith

  covered-after_status :
      (inp : WorkflowInput)
      → (now : ℕ) → (a : Answer) → (r : Run) → at_state (Point.calls Call.polling) r.state ≡ true
      → is_covered (after_status inp now a r) ≡ true
  unfolding covers after_status
  covered-after_status inp now a r at =
      let e = covered-chase inp now (note_status a r) at in ground arith

  pub covered-proceed :
      (inp : WorkflowInput)
      → (now : ℕ) → (a : Answer) → (c : Call) → (r : Run) → auto ≡ inp.auto_release_rfq
      → at_state (Point.calls c) r.state ≡ true
      → is_covered (proceed inp now a c r) ≡ true
  unfolding covers proceed start_collect after_reminder after_plan after_sending after_pricing
      after_repricing after_reminding
  covered-proceed inp now a Call.polling r is_auto at =
      let e = covered-chase inp now r at in ground arith
  covered-proceed inp now a Call.checking r is_auto at = covered-after_status inp now a r at
  covered-proceed inp now a Call.checking_due r is_auto at =
      covered-remind_next inp a.pending_supplier_ids r at
  covered-proceed inp now a (Call.reminding s rest) r is_auto at =
      covered-remind_next inp rest (count_reminder s a r) (ground arith)
  covered-proceed inp now a Call.scheduling r is_auto at =
      covered-expedite_loop 60 (at_stage Stage.expediting (Point.calls Call.scheduling) r) at
  covered-proceed inp now a (Call.expediting left) r is_auto at =
      let e = covered-expedite_loop left r at in ground arith
  covered-proceed inp now a c r is_auto at = ground arith

  pub covered-retry :
      (w : Wait)
      → (r : Run) → r.point ≡ Point.waits w
      → at_state (Point.waits w) r.state ≡ true
      → is_covered (retry w r) ≡ true
  unfolding covers retry
  covered-retry (Wait.pausing_expedite left) r is_at at =
      let e = covered-expedite_loop left r at in let e2 = covered-here r is_at at in ground arith
  covered-retry w r is_at at = ground arith

  pub covered-expire :
      (raises : Bool)
      → (now : ℕ) → (w : Wait) → (r : Run) → r.point ≡ Point.waits w
      → at_state (Point.waits w) r.state ≡ true
      → is_covered (expire raises now w r) ≡ true
  unfolding covers expire
  covered-expire raises now (Wait.pausing_expedite left) r is_at at =
      let e = covered-expedite_loop left r at in ground arith
  covered-expire raises now w r is_at at = let e = covered-here r is_at at in ground arith
