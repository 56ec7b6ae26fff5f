-- ===== src/Scenarios/Workflows.antt =====
-- A workflow from its start to its end, and one whose poll for offers stays empty.
use procurement_automation.Prelude.{ℕ, ◌≡◌, refl, true, false, [], ◌∷◌, List, ◌++◌, ltb}
use procurement_automation.Prelude.Dict
use procurement_automation.Workflow.{WorkflowInput, Answer, Ending, Call, Wait, Point, Run}
use procurement_automation.Workflow.Step.{Signal, Event, started, run_events}
use procurement_automation.Workflow.Runs.{is_permitted, run_events-is_permitted}
use procurement_automation.Workflow.Loops.{phase, starts_loop, run_events-never_loops}

abbrev pub input : WorkflowInput
input = record {
  case_id = "C1";
  quote_window_days = 10;
  reminder_interval_hours = 72;
  max_reminders = 2;
  enable_negotiation = true;
  auto_release_rfq = false;
}

-- An answer with an offer, and without a negotiation or a delivery that is due.
abbrev good : Answer
good = record {
  needs_engineering = false;
  selected_vendor_ids = "V1" ∷ [];
  rfq_id = "R1";
  supplier_ids = "V1" ∷ [];
  processed = true;
  quotes_received = 1;
  pending_supplier_ids = [];
  may_evaluate = true;
  sent_or_held = false;
  l1_vendor_id = "V1";
  l1_total_base = "100";
  recommendation_created = false;
  round_id = "";
  recommendation_id = "P1";
  due = false;
}

-- No mail has come, and the supplier is pending.
abbrev silent : Answer
silent = record good {
  processed = false;
  quotes_received = 0;
  pending_supplier_ids = "V1" ∷ [];
  may_evaluate = false;
}

abbrev pub answers : ℕ × Event
answers = (0, Event.answer good)

abbrev pub signals : Signal → ℕ × Event
signals s = (0, Event.signal s)

abbrev pub to_release : List (ℕ × Event)
to_release = answers ∷ answers ∷ answers ∷ answers ∷ answers ∷ answers ∷ []

abbrev whole : List (ℕ × Event)
whole =
    answers
    ∷ answers
    ∷ answers
    ∷ answers
    ∷ answers
    ∷ answers
    ∷ signals (Signal.rfq_released "A1")
    ∷ answers
    ∷ answers
    ∷ answers
    ∷ answers
    ∷ answers
    ∷ signals (Signal.technical_approval_received "U1")
    ∷ answers
    ∷ answers
    ∷ answers
    ∷ signals (Signal.award_approval_received "V1")
    ∷ answers
    ∷ answers
    ∷ answers
    ∷ answers
    ∷ []

test_waits_for_release :
    (run_events true input to_release (started input)).point ≡ Point.waits Wait.waiting_release
unfolding run_events started Dict.get Dict.put
test_waits_for_release = refl

test_whole : (run_events true input whole (started input)).point ≡ Point.ended Ending.as_completed
unfolding run_events started Dict.get Dict.put
test_whole = refl

-- The RFQ is released and the invitations are sent.
abbrev polling : Run
polling =
    run_events true input (to_release ++ signals (Signal.rfq_released "A1") ∷ answers ∷ [])
      (started input)

test_polling : polling.point ≡ Point.calls Call.polling
unfolding run_events started Dict.get Dict.put
test_polling = refl

-- After an empty poll, 15 minutes without an offer.
abbrev quiet : List (ℕ × Event)
quiet = (960_000_000, Event.expired) ∷ []

test_empty_poll :
    (run_events true input ((60_000_000, Event.answer silent) ∷ quiet) polling).point
    ≡ Point.ended Ending.as_crashed
unfolding run_events started Dict.get Dict.put
test_empty_poll = refl

run_events-is_permitted_example :
    is_permitted false whole (run_events true input whole (started input)).point ≡ true
run_events-is_permitted_example = run_events-is_permitted true input whole

run_events-never_loops_example :
    ltb
      (phase (Point.calls Call.polling))
      (phase (run_events true input ((60_000_000, Event.answer silent) ∷ quiet) polling).point)
    ≡ true
unfolding starts_loop
run_events-never_loops_example =
    run_events-never_loops input 60_000_000 silent Call.polling quiet polling refl test_polling
