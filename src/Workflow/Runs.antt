-- ===== src/Workflow/Runs.antt =====
-- Runs of the workflow: the signals that were sent, and how far a run can have come.
use procurement_automation.Prelude.{
  ℕ, ltb, Bool, true, false, not, ◌||◌, ◌&&◌, ◌≡◌, refl, List, [], ◌∷◌, String, arith,
}
use procurement_automation.Workflow.{WorkflowInput, WorkflowState, Call, Point, Run, initial_state}
use procurement_automation.Workflow.Step.{
  Signal, Event, note_signal, give_up, step_at, step, started, run_events,
}
use procurement_automation.Workflow.Gates.{
  gates_before, covers, is_covered, covered-here, covered-proceed, covered-retry, covered-expire,
}

-- The signals of the three gates.
unfoldable pub is_release : Event → Bool
is_release (Event.signal (Signal.rfq_released _)) = true
is_release _ = false

unfoldable pub is_technical_approval : Event → Bool
is_technical_approval (Event.signal (Signal.technical_approval_received _)) = true
is_technical_approval _ = false

unfoldable pub is_award_approval : Event → Bool
is_award_approval (Event.signal (Signal.award_approval_received _)) = true
is_award_approval _ = false

unfoldable pub was_sent : (Event → Bool) → List (ℕ × Event) → Bool
was_sent test [] = false
was_sent test ((_, e) ∷ rest) = test e || was_sent test rest

-- No flag is set whose signal was not sent.
unfoldable within : Bool → Bool → Bool → Bool → Bool → Bool → Bool
within a b c x y z = (not x || a) && (not y || b) && (not z || c)

or_rotate : (x y a : Bool) → (x || (y || a)) ≡ ((y || x) || a)
or_rotate x y a = ground arith

covered-give_up :
    (auto : Bool)
    → (fits : Bool → Bool → Bool → Bool) → (why : String) → (c : Call) → (r : Run)
    → covers auto fits (Point.calls c) r.state ≡ true
    → is_covered auto fits (give_up why c r) ≡ true
unfolding covers give_up
covered-give_up auto fits why c r at = grind arith

module _ (auto a b c : Bool) where
  covered-signal :
      (s : Signal)
      → (p : Point) → (r : Run) → covers auto (within a b c) p r.state ≡ true
      → covers auto
          (within
            (is_release (Event.signal s) || a)
            (is_technical_approval (Event.signal s) || b)
            (is_award_approval (Event.signal s) || c))
          p
          (note_signal s r.state)
        ≡ true
  unfolding covers within is_release is_technical_approval is_award_approval note_signal
  covered-signal Signal.engineering_information_received p r at = at
  covered-signal (Signal.rfq_released id) p r at = ground arith
  covered-signal (Signal.supplier_response_received id) p r at = at
  covered-signal (Signal.technical_approval_received id) p r at = ground arith
  covered-signal (Signal.negotiation_approved id) p r at = at
  covered-signal (Signal.award_approval_received id) p r at = ground arith
  covered-signal (Signal.cancel id) p r at = at

  covered-more :
      (x y z : Bool)
      → (p : Point) → (s : WorkflowState) → covers auto (within a b c) p s ≡ true
      → covers auto (within (x || a) (y || b) (z || c)) p s ≡ true
  unfolding covers within
  covered-more x y z p s at = ground arith

  -- What was sent, after an event.
  abbrev after : Event → Bool → Bool → Bool → Bool
  after e = within (is_release e || a) (is_technical_approval e || b) (is_award_approval e || c)

  covered-step_at :
      (raises : Bool)
      → (inp : WorkflowInput) → (now : ℕ) → (e : Event) → (p : Point) → (r : Run)
      → auto ≡ inp.auto_release_rfq
      → r.point ≡ p
      → covers auto (within a b c) p r.state ≡ true
      → is_covered auto (after e) (step_at raises inp now e p r) ≡ true
  unfolding is_release is_technical_approval is_award_approval step_at
  covered-step_at raises inp now (Event.signal s) (Point.waits w) r is_auto is_at at =
      covered-retry auto (after (Event.signal s)) w (record r { state = note_signal s r.state })
        is_at (covered-signal s (Point.waits w) r at)
  covered-step_at raises inp now (Event.signal s) (Point.calls c) r is_auto is_at at =
      covered-here auto (after (Event.signal s)) (record r { state = note_signal s r.state }) is_at
        (covered-signal s (Point.calls c) r at)
  covered-step_at raises inp now (Event.signal s) (Point.ended how) r is_auto is_at at =
      covered-here auto (after (Event.signal s)) r is_at (
        covered-more (is_release (Event.signal s)) (is_technical_approval (Event.signal s))
          (is_award_approval (Event.signal s)) (Point.ended how) r.state at)
  covered-step_at raises inp now Event.expired (Point.waits w) r is_auto is_at at =
      covered-expire auto (within a b c) raises now w r is_at at
  covered-step_at raises inp now (Event.answer x) (Point.calls d) r is_auto is_at at =
      covered-proceed auto (within a b c) inp now x d r is_auto at
  covered-step_at raises inp now (Event.raised why) (Point.calls d) r is_auto is_at at =
      covered-give_up auto (within a b c) why d r at
  covered-step_at raises inp now e p r is_auto is_at at =
      covered-here auto (within a b c) r is_at at

covered-run_events :
    (raises : Bool)
    → (inp : WorkflowInput) → (events : List (ℕ × Event)) → (a b c : Bool) → (r : Run)
    → is_covered inp.auto_release_rfq (within a b c) r ≡ true
    → is_covered inp.auto_release_rfq
        (within
          (was_sent is_release events || a)
          (was_sent is_technical_approval events || b)
          (was_sent is_award_approval events || c))
        (run_events raises inp events r)
      ≡ true
unfolding run_events was_sent
covered-run_events raises inp [] a b c r at = at
covered-run_events raises inp ((now, e) ∷ rest) a b c r at =
    let moved =
      covered-step_at inp.auto_release_rfq a b c raises inp now e r.point r refl refl at in
    let ran =
      covered-run_events raises inp rest (is_release e || a) (is_technical_approval e || b)
        (is_award_approval e || c) (step raises inp now e r) moved in
    rw
      (
        ← or_rotate (was_sent is_release rest) (is_release e) a,
        ← or_rotate (was_sent is_technical_approval rest) (is_technical_approval e) b,
        ← or_rotate (was_sent is_award_approval rest) (is_award_approval e) c,
      )
      ran

-- How far a run is allowed to come with the events it has had.
unfoldable pub is_permitted : Bool → List (ℕ × Event) → Point → Bool
unfolding gates_before was_sent
is_permitted auto events p =
    (ltb (gates_before p) 1 || auto || was_sent is_release events)
    && (ltb (gates_before p) 2 || was_sent is_technical_approval events)
    && (ltb (gates_before p) 3 || was_sent is_award_approval events)

-- With whatever answers, exceptions and waits, a new run is behind the release of the RFQ only if
-- the signal of the release was sent or the input releases it, behind the technical approval only
-- if that signal was sent, and behind the award only if the award was signalled: so bids are not
-- unsealed, prices not evaluated, no order recommended and the case not completed without them.
pub run_events-is_permitted :
    (raises : Bool)
    → (inp : WorkflowInput) → (events : List (ℕ × Event))
    → is_permitted inp.auto_release_rfq events (run_events raises inp events (started inp)).point
      ≡ true
unfolding is_permitted started initial_state covers within
run_events-is_permitted raises inp events =
    let ran = covered-run_events raises inp events false false false (started inp) refl in
    ground arith
