-- ===== src/Workflow/Collect.antt =====
-- `_collect_quotes`: poll for replies, chase, and stop at the deadline.
use procurement_automation.Prelude.{
  ℕ, ◌+◌, ◌-◌, ◌*◌, ltb, leb, Bool, true, false, ◌&&◌, ◌||◌, if◌then◌else◌, none, some, List, [],
  ◌∷◌, String, str_eq, any,
}
use procurement_automation.Prelude.Dict
use procurement_automation.Prelude.Dict.{Dict}
use procurement_automation.Workflow.{
  WorkflowInput, Stage, Answer, Call, Wait, Point, Run, at_point, unless_stopped, days,
}

-- `all(responses.values())`
abbrev pub all_responded : Dict Bool → Bool
all_responded [] = true
all_responded ((_, b) ∷ rest) = b && all_responded rest

-- `supplier_responses.setdefault(id, False)` for each invited supplier.
unfoldable pub set_defaults : List String → Dict Bool → Dict Bool
set_defaults [] d = d
set_defaults (s ∷ rest) d = elim (Dict.get d s) [
  | some _ ↦ set_defaults rest d
  | none ↦ set_defaults rest (Dict.put d s false)
]

-- Every supplier that is not pending has responded.
unfoldable pub mark_responded : List String → Dict Bool → Dict Bool
mark_responded pending [] = []
mark_responded pending ((s, b) ∷ rest) =
    (s, (if any (str_eq s) pending then b else true)) ∷ mark_responded pending rest

-- After the loop, and after a `return` in it: the rest of `run`.
abbrev pub leave_collect : Run → Run
leave_collect r = unless_stopped (at_point (Point.calls Call.closing_rfq) r) r

-- The head of the loop.
abbrev pub collect_loop : ℕ → Run → Run
collect_loop now r =
    if ltb now r.locals.deadline
    then (if r.state.cancelled then leave_collect r else at_point (Point.calls Call.polling) r)
    else at_point (Point.calls Call.checking_last) r

-- The wait at the end of the loop's body: over if cancelled or if everybody responded.
abbrev pub pause : Run → Run
pause r =
    if r.state.cancelled || all_responded r.state.supplier_responses
    then at_point (Point.calls Call.checking_last) r
    else at_point (Point.waits Wait.pausing) r

-- The next supplier to remind, of those that have reminders left.
unfoldable pub remind_next : WorkflowInput → List String → Run → Run
remind_next inp [] r = pause r
remind_next inp (s ∷ rest) r =
    let others = remind_next inp rest r in
    if leb inp.max_reminders (Dict.get_or r.locals.reminders_sent s 0)
    then others
    else at_point (Point.calls (Call.reminding s rest)) r

-- The second half of the loop's body.
unfoldable pub chase : WorkflowInput → ℕ → Run → Run
chase inp now r =
    if leb (inp.reminder_interval_hours * 3_600_000_000) (now - r.locals.last_reminder)
    then record r {
      locals = record (r.locals) { last_reminder = now };
      point = (Point.calls Call.checking_due);
    }
    else pause r

-- The start: the locals, and the loop.
unfoldable pub start_collect : WorkflowInput → ℕ → Answer → Run → Run
unfolding set_defaults
start_collect inp now a r = collect_loop now (record r {
  state = record (r.state) {
    stage = Stage.waiting_for_quotes;
    supplier_responses = set_defaults a.supplier_ids r.state.supplier_responses;
  };
  locals = record (r.locals) {
    deadline = now + days inp.quote_window_days;
    last_reminder = now;
    reminders_sent = [];
  };
})

abbrev pub note_status : Answer → Run → Run
note_status a r = record r {
  state = record (r.state) {
    quotes_received = a.quotes_received;
    supplier_responses = mark_responded a.pending_supplier_ids r.state.supplier_responses;
  };
}

-- After the status of a poll that brought something.
unfoldable pub after_status : WorkflowInput → ℕ → Answer → Run → Run
unfolding mark_responded chase
after_status inp now a r =
    let noted = note_status a r in
    if a.may_evaluate && all_responded noted.state.supplier_responses
    then leave_collect noted
    else chase inp now noted

-- A reminder that went out, or is held, counts.
abbrev pub count_reminder : String → Answer → Run → Run
count_reminder s a r =
    if a.sent_or_held
    then record r {
      locals = record (r.locals) {
        reminders_sent =
            Dict.put r.locals.reminders_sent s (Dict.get_or r.locals.reminders_sent s 0 + 1);
      };
    }
    else r

-- After a reminder: on to the next supplier.
unfoldable pub after_reminder : WorkflowInput → String → List String → Answer → Run → Run
unfolding remind_next
after_reminder inp s rest a r = remind_next inp rest (count_reminder s a r)
