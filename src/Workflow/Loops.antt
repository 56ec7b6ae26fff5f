-- ===== src/Workflow/Loops.antt =====
-- The three loops of procureguard/workflows/procurement.py that ask and wait (`_collect_quotes`,
-- `_run_negotiation` and `_expedite`) when a wait whose time is over raises.
use procurement_automation.Prelude.{
  ℕ, zero, suc, ltb, leb, Bool, true, false, ◌||◌, if◌then◌else◌, ◌≡◌, refl, List, [], ◌∷◌, String,
  arith, ap, ◌∙◌,
}
use procurement_automation.Prelude.Dict
use procurement_automation.Workflow.{
  WorkflowInput, Stage, Answer, Call, Wait, Point, Run, at_point, at_stage,
}
use procurement_automation.Workflow.Collect.{
  all_responded, chase, start_collect, note_status, after_status, remind_next, count_reminder,
  after_reminder,
}
use procurement_automation.Workflow.Negotiate.{
  after_plan, after_sending, after_pricing, after_repricing, expedite_loop, after_reminding,
}
use procurement_automation.Workflow.Step.{
  Event, note_signal, retry, expire, proceed, give_up, step_at, step, run_events,
}

-- The part of the run that a point is in: the calls that the three loops start with are parts of
-- their own.
unfoldable pub phase : Point → ℕ
phase (Point.calls Call.recording) = 0
phase (Point.calls Call.validating) = 0
phase (Point.waits Wait.waiting_engineering) = 0
phase (Point.calls Call.validating_again) = 0
phase (Point.calls Call.extracting) = 0
phase (Point.calls Call.benchmarking) = 0
phase (Point.calls Call.shortlisting) = 0
phase (Point.calls Call.preparing) = 0
phase (Point.waits Wait.waiting_release) = 0
phase (Point.calls Call.inviting) = 0
phase (Point.calls Call.polling) = 1
phase (Point.calls Call.polling_round) = 3
phase (Point.waits Wait.pausing_round) = 4
phase (Point.calls Call.closing_round) = 4
phase (Point.calls Call.pricing_again) = 4
phase (Point.waits Wait.waiting_award) = 4
phase (Point.calls Call.recommending) = 4
phase (Point.calls Call.scheduling) = 4
phase (Point.calls (Call.expediting _)) = 5
phase (Point.waits (Wait.pausing_expedite _)) = 6
phase (Point.calls Call.finalizing) = 6
phase (Point.calls Call.failing) = 6
phase (Point.ended _) = 6
phase _ = 2

-- The calls that the loops start with.
unfoldable pub starts_loop : Call → Bool
starts_loop Call.polling = true
starts_loop Call.polling_round = true
starts_loop (Call.expediting _) = true
starts_loop _ = false

abbrev reaches : ℕ → Run → Bool
reaches n r = leb n (phase r.point)

reaches-if :
    (n : ℕ)
    → (b : Bool) → (x y : Run) → reaches n x ≡ true
    → reaches n y ≡ true
    → reaches n (if b then x else y) ≡ true
reaches-if n true x y at_x at_y = at_x
reaches-if n false x y at_x at_y = at_y

reaches-remind_next :
    (inp : WorkflowInput)
    → (pending : List String) → (r : Run) → reaches 2 (remind_next inp pending r) ≡ true
unfolding phase remind_next
reaches-remind_next inp [] r =
    reaches-if 2 (r.state.cancelled || all_responded r.state.supplier_responses)
      (at_point (Point.calls Call.checking_last) r) (at_point (Point.waits Wait.pausing) r) refl
      refl
reaches-remind_next inp (s ∷ rest) r =
    reaches-if 2 (leb inp.max_reminders (Dict.get_or r.locals.reminders_sent s 0))
      (remind_next inp rest r) (at_point (Point.calls (Call.reminding s rest)) r)
      (reaches-remind_next inp rest r) refl

reaches-expedite_loop : (left : ℕ) → (r : Run) → reaches 5 (expedite_loop left r) ≡ true
unfolding phase expedite_loop
reaches-expedite_loop zero r = refl
reaches-expedite_loop (suc left) r = ground arith

-- A cancelled delivery loop is over.
reaches-expedite_loop_cancelled :
    (left : ℕ) → (r : Run) → r.state.cancelled ≡ true → reaches 6 (expedite_loop left r) ≡ true
unfolding phase expedite_loop
reaches-expedite_loop_cancelled zero r stop = refl
reaches-expedite_loop_cancelled (suc left) r stop = ground arith

reaches-chase : (inp : WorkflowInput) → (now : ℕ) → (r : Run) → reaches 2 (chase inp now r) ≡ true
unfolding phase chase
reaches-chase inp now r = ground arith

reaches-after_status :
    (inp : WorkflowInput)
    → (now : ℕ) → (a : Answer) → (r : Run) → reaches 2 (after_status inp now a r) ≡ true
unfolding phase after_status
reaches-after_status inp now a r = let e = reaches-chase inp now (note_status a r) in ground arith

reaches-here : {p : Point} → (r : Run) → r.point ≡ p → reaches (phase p) r ≡ true
reaches-here r is_at = let e = ap phase is_at in ground arith

reaches-proceed :
    (inp : WorkflowInput)
    → (now : ℕ) → (a : Answer) → (c : Call) → (r : Run)
    → reaches
        (if starts_loop c then suc (phase (Point.calls c)) else phase (Point.calls c))
        (proceed inp now a c r)
      ≡ true
unfolding phase starts_loop proceed start_collect after_reminder after_plan after_sending
    after_pricing after_repricing after_reminding
reaches-proceed inp now a Call.polling r = let e = reaches-chase inp now r in ground arith
reaches-proceed inp now a Call.checking r = reaches-after_status inp now a r
reaches-proceed inp now a Call.checking_due r = reaches-remind_next inp a.pending_supplier_ids r
reaches-proceed inp now a (Call.reminding s rest) r =
    reaches-remind_next inp rest (count_reminder s a r)
reaches-proceed inp now a Call.scheduling r =
    let e = reaches-expedite_loop 60 (at_stage Stage.expediting (Point.calls Call.scheduling) r) in
    ground arith
reaches-proceed inp now a (Call.expediting left) r =
    let e = reaches-expedite_loop_cancelled left r in ground arith
reaches-proceed inp now a c r = ground arith

reaches-retry :
    (w : Wait)
    → (r : Run) → r.point ≡ Point.waits w
    → reaches (phase (Point.waits w)) (retry w r) ≡ true
unfolding phase retry
reaches-retry (Wait.pausing_expedite left) r is_at =
    let e = reaches-expedite_loop_cancelled left r in let e2 = reaches-here r is_at in ground arith
reaches-retry w r is_at = let e = reaches-here r is_at in ground arith

reaches-expire :
    (now : ℕ)
    → (w : Wait) → (r : Run) → r.point ≡ Point.waits w
    → reaches (phase (Point.waits w)) (expire true now w r) ≡ true
unfolding phase expire
reaches-expire now Wait.pausing r is_at = refl
reaches-expire now w r is_at = let e = reaches-here r is_at in ground arith

reaches-give_up : (why : String) → (c : Call) → (r : Run) → reaches 6 (give_up why c r) ≡ true
unfolding phase give_up
reaches-give_up why c r = grind arith

phase_bound : (p : Point) → leb (phase p) 6 ≡ true
unfolding phase
phase_bound p = grind arith

reaches-step_at :
    (inp : WorkflowInput)
    → (now : ℕ) → (e : Event) → (p : Point) → (r : Run) → r.point ≡ p
    → reaches (phase p) (step_at true inp now e p r) ≡ true
unfolding step_at
reaches-step_at inp now (Event.signal s) (Point.waits w) r is_at =
    reaches-retry w (record r { state = note_signal s r.state }) is_at
reaches-step_at inp now (Event.signal s) (Point.calls c) r is_at =
    reaches-here (record r { state = note_signal s r.state }) is_at
reaches-step_at inp now (Event.signal s) (Point.ended how) r is_at = reaches-here r is_at
reaches-step_at inp now Event.expired (Point.waits w) r is_at = reaches-expire now w r is_at
reaches-step_at inp now (Event.answer a) (Point.calls c) r is_at =
    let e = reaches-proceed inp now a c r in ground arith
reaches-step_at inp now (Event.raised why) (Point.calls c) r is_at =
    let e = reaches-give_up why c r in let e2 = phase_bound (Point.calls c) in ground arith
reaches-step_at inp now e p r is_at = reaches-here r is_at

reaches-run_events :
    (inp : WorkflowInput)
    → (events : List (ℕ × Event)) → (n : ℕ) → (r : Run) → reaches n r ≡ true
    → reaches n (run_events true inp events r) ≡ true
unfolding run_events
reaches-run_events inp [] n r at = at
reaches-run_events inp ((now, e) ∷ rest) n r at =
    let moved = reaches-step_at inp now e r.point r refl in
    reaches-run_events inp rest n (step true inp now e r) (ground arith)

-- Where a wait whose time is over raises, the three loops have one round: once the call that a
-- loop starts with is answered (the mailbox for offers, the mailbox for replies, the delivery
-- reminder), no events bring the run back to it.
pub run_events-never_loops :
    (inp : WorkflowInput)
    → (now : ℕ) → (a : Answer) → (c : Call) → (events : List (ℕ × Event)) → (r : Run)
    → starts_loop c ≡ true
    → r.point ≡ Point.calls c
    → ltb
        (phase (Point.calls c))
        (phase (run_events true inp ((now, Event.answer a) ∷ events) r).point)
      ≡ true
unfolding run_events step_at
run_events-never_loops inp now a c events r starts is_at =
    let moved = reaches-proceed inp now a c r in
    let ran =
      reaches-run_events inp events (suc (phase (Point.calls c)))
        (step true inp now (Event.answer a) r)
        (ap (λ p. reaches (suc (phase (Point.calls c))) (step_at true inp now (Event.answer a) p r))
            is_at
          ∙ rw starts at moved) in
    ground arith
