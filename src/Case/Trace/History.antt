-- ===== src/Case/Trace/History.antt =====
-- The history of a case is a walk in the state graph; and what a walk can do.
use procurement_automation.Prelude.{
  ℕ, ◌≡◌, ◌∙◌, sym, refl, inl, inr, List, [], ◌∷◌, ◌++◌, String, true, arith,
}
use procurement_automation.Vocabulary.Case.{CaseState}
use procurement_automation.Case.Graph.{can_move}
use procurement_automation.Case.{
  SourcingCase, HistoryEntry, new_case, unlock_commercial, record_award_approval, register_reminder,
  open_negotiation_round, can_transition, moved,
}
use procurement_automation.Case.Methods.{transition-cases}
use procurement_automation.Case.Trace.Calls.{
  move, unlock, award, remind, negotiate, Timed, after, run,
}

-- From `s`, the entries are legal moves that follow one another, and the last leads to `t`.
abbrev pub IsWalk : CaseState → List HistoryEntry → CaseState → Type 0
IsWalk s [] t = s ≡ t
IsWalk s (e ∷ es) t = (e.from_state ≡ s) × (can_move s e.to_state ≡ true) × IsWalk e.to_state es t

IsWalk-append :
    (s t : CaseState) (es : List HistoryEntry) (e : HistoryEntry)
    → IsWalk s es t
    → e.from_state ≡ t
    → can_move t e.to_state ≡ true
    → IsWalk s (es ++ e ∷ []) e.to_state
IsWalk-append s t [] e w p q = (p ∙ sym w, rw w q, refl)
IsWalk-append s t (x ∷ es) e w p q = (w.0, w.1, IsWalk-append x.to_state t es e w.2 p q)

abbrev IsRecorded : CaseState → SourcingCase → Type 0
IsRecorded s c = IsWalk s c.state_history c.state

after-IsRecorded :
    (s : CaseState) (call : Timed) (c : SourcingCase) → IsRecorded s c → IsRecorded s (after call c)
unfolding after unlock_commercial record_award_approval register_reminder open_negotiation_round
after-IsRecorded s (move t actor reason, now) c w = elim (transition-cases c now t actor reason) [
  | inl same ↦ rw same w
  | inr (new, legal, _, _) ↦ rw new (
      unfold moved can_transition in
      IsWalk-append s c.state c.state_history
        (record {
          from_state = c.state;
          to_state = t;
          actor = actor;
          reason = reason;
          at_time = now;
        })
        w refl legal)
]
after-IsRecorded s (unlock actor, now) c w = ground arith
after-IsRecorded s (award actor who, now) c w = ground arith
after-IsRecorded s (remind who limit, now) c w = ground arith
after-IsRecorded s (negotiate limit, now) c w = ground arith

run-IsRecorded :
    (s : CaseState) (calls : List Timed) (c : SourcingCase)
    → IsRecorded s c
    → IsRecorded s (run calls c)
unfolding run
run-IsRecorded s [] c w = w
run-IsRecorded s (call ∷ calls) c w =
    run-IsRecorded s calls (after call c) (after-IsRecorded s call c w)

-- After any calls on a new case its history begins at RECEIVED, each entry is a legal transition
-- from the state that the entry before it entered, and the last one entered the present state.
pub history_walks :
    (case_id pr_number : String) (start : ℕ) (calls : List Timed)
    → let c = run calls (new_case case_id pr_number start) in
      IsWalk CaseState.received c.state_history c.state
unfolding new_case
history_walks case_id pr_number start calls =
    run-IsRecorded CaseState.received calls (new_case case_id pr_number start) refl
