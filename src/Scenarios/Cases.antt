-- ===== src/Scenarios/Cases.antt =====
-- Cases that go through the sourcing process, and the technical gate.
use procurement_automation.Prelude.{
  ◌≡◌, refl, ap, inr, true, List, [], ◌∷◌, String, Any, ◌≤◌, arith,
}
use procurement_automation.Prelude.Dict
use procurement_automation.Prelude.Text.{strip}
use procurement_automation.Errors.{Error, ok, err}
use procurement_automation.Vocabulary.Case.{CaseState, ApprovalType, ApprovalDecision}
use procurement_automation.Approval
use procurement_automation.Approval.{Approval}
use procurement_automation.Case.{
  SourcingCase, new_case, is_state, transition, moved, open_negotiation_round, register_reminder,
  unlock_commercial, record_award_approval, can_transition,
}
use procurement_automation.Case.Methods.{IsCancellation, transition-IsCancellation}
use procurement_automation.Case.Invariant.{IsSound, is_commercial, is_ordered}
use procurement_automation.Case.Trace.Calls.{
  move, unlock, award, remind, negotiate, Timed, after, run,
}
use procurement_automation.Case.Trace.Seal.{
  run-IsSound, commercial_needs_human, order_needs_humans, IsHumanUnlock, IsHumanAward,
}
use procurement_automation.Case.Trace.Limits.{run_limits, run_final, sent_to}
use procurement_automation.Case.Trace.History.{IsWalk, history_walks}
use procurement_automation.Case.Trace.Reopen.{moves, restart, restart_unsealed}
use procurement_automation.Policy.{default_policy}
use procurement_automation.Policy.Cases.{may_recommend_po}
use procurement_automation.Policy.Gate.{apply_technical_approval, may_unlock_commercial, is_type}
use procurement_automation.Policy.Agreement.{may_recommend_po-transition}
use procurement_automation.Policy.Technical.{IsGated, passes, apply_technical_approval-IsGated}

abbrev step : CaseState → Timed
step s = (move s "worker" "", 5)

-- From the requisition to the technical approval, with a reminder on the way.
abbrev to_approval : List Timed
to_approval =
    step CaseState.validating_pr
    ∷ step CaseState.sourcing_strategy
    ∷ step CaseState.ready_for_rfq
    ∷ step CaseState.waiting_for_quotes
    ∷ (remind "S1" 2, 6)
    ∷ step CaseState.technical_evaluation
    ∷ step CaseState.waiting_for_technical_approval
    ∷ []

-- The whole process, with a commercial evaluation that is refused before the unlock.
abbrev to_order : List Timed
to_order =
    step CaseState.validating_pr
    ∷ step CaseState.sourcing_strategy
    ∷ step CaseState.ready_for_rfq
    ∷ step CaseState.waiting_for_quotes
    ∷ (remind "S1" 2, 6)
    ∷ step CaseState.technical_evaluation
    ∷ step CaseState.waiting_for_technical_approval
    ∷ step CaseState.commercial_evaluation
    ∷ (unlock "erin", 7)
    ∷ step CaseState.commercial_evaluation
    ∷ (negotiate 3, 8)
    ∷ step CaseState.waiting_for_award_approval
    ∷ (award "paul" "S1", 9)
    ∷ step CaseState.po_recommendation
    ∷ []

abbrev ordered : SourcingCase
ordered = run to_order (new_case "C1" "PR1" 0)

abbrev waiting : SourcingCase
waiting = run to_approval (new_case "C1" "PR1" 0)

abbrev evaluated : SourcingCase
evaluated = run ((unlock "erin", 7) ∷ step CaseState.commercial_evaluation ∷ []) waiting

abbrev awaiting_award : SourcingCase
awaiting_award =
    run (step CaseState.waiting_for_award_approval ∷ (award "paul" "S1", 9) ∷ []) evaluated

abbrev failed_later : SourcingCase
failed_later = run (step CaseState.failed ∷ []) evaluated

abbrev withdrawn : SourcingCase
withdrawn = run (step CaseState.cancelled ∷ []) evaluated

abbrev approval : Approval
approval = record {
  approval_id = "A1";
  case_id = "C1";
  approval_type = ApprovalType.technical;
  decision = ApprovalDecision.approved;
  actor_id = "erin";
  reason = "all mandatory points met";
  actor_roles = "ENGINEER" ∷ [];
  subject_ref = "";
  conditions = [];
  created_at = 8;
  signature = "";
}

ordered_state : (ordered.state ≡ CaseState.po_recommendation) × (ordered.version ≡ 10)
unfolding run after transition is_state record_award_approval open_negotiation_round
    unlock_commercial register_reminder new_case can_transition moved Dict.get_or
ordered_state = (refl, refl)

refused_early :
    (transition CaseState.commercial_evaluation "worker" "" 5 waiting).0
    ≡ err Error.unsafe_transition
unfolding run after transition is_state record_award_approval open_negotiation_round
    unlock_commercial register_reminder new_case can_transition moved Dict.get_or
refused_early = refl

withdrawn_state : withdrawn.state ≡ CaseState.cancelled
unfolding run after transition is_state record_award_approval open_negotiation_round
    unlock_commercial register_reminder new_case can_transition moved Dict.get_or
withdrawn_state = refl

failed_later_state :
    (failed_later.state ≡ CaseState.failed) × (failed_later.commercial_unlocked ≡ true)
unfolding run after transition is_state record_award_approval open_negotiation_round
    unlock_commercial register_reminder new_case can_transition moved Dict.get_or
failed_later_state = (refl, refl)

recommended : (may_recommend_po default_policy awaiting_award true).allowed ≡ true
unfolding run after transition is_state record_award_approval open_negotiation_round
    unlock_commercial register_reminder new_case can_transition moved Dict.get_or may_recommend_po
recommended = refl

gate_opens : (apply_technical_approval approval 9 waiting).1.state ≡ CaseState.commercial_evaluation
unfolding run after transition is_state record_award_approval open_negotiation_round
    unlock_commercial register_reminder new_case can_transition moved Dict.get_or
    apply_technical_approval Approval.validate strip may_unlock_commercial is_type
    Approval.is_positive
gate_opens = refl

passed : passes waiting approval ≡ true
unfolding run after transition is_state record_award_approval open_negotiation_round
    unlock_commercial register_reminder new_case can_transition moved Dict.get_or
    may_unlock_commercial Approval.validate strip is_type Approval.is_positive
passed = refl

run-IsSound_example : IsSound ordered
run-IsSound_example = run-IsSound "C1" "PR1" 0 to_order

commercial_needs_human_example : Any IsHumanUnlock to_order
commercial_needs_human_example =
    commercial_needs_human "C1" "PR1" 0 to_order (ap is_commercial ordered_state.0)

order_needs_humans_example : Any IsHumanUnlock to_order × Any IsHumanAward to_order
order_needs_humans_example =
    order_needs_humans "C1" "PR1" 0 to_order (ap is_ordered ordered_state.0)

run_limits_example :
    ((supplier : String) → sent_to ordered supplier ≤ 2) × (ordered.negotiation_round ≤ 3)
run_limits_example = run_limits "C1" "PR1" 0 2 3 to_order (ground arith)

run_final_example :
    (run (step CaseState.received ∷ (unlock "erin", 7) ∷ []) withdrawn).state ≡ withdrawn.state
run_final_example =
    run_final (step CaseState.received ∷ (unlock "erin", 7) ∷ []) withdrawn (inr withdrawn_state)

history_walks_example : IsWalk CaseState.received ordered.state_history ordered.state
history_walks_example = history_walks "C1" "PR1" 0 to_order

restart_unsealed_example :
    (run (moves "SYSTEM" "retry" 9 restart) failed_later).state ≡ CaseState.commercial_evaluation
restart_unsealed_example =
    restart_unsealed "SYSTEM" "retry" 9 failed_later failed_later_state.0 failed_later_state.1

transition-IsCancellation_example :
    IsCancellation waiting.state "not needed" waiting
      (transition CaseState.cancelled "carl" "not needed" 9 waiting)
transition-IsCancellation_example = transition-IsCancellation waiting "carl" "not needed" 9

apply_technical_approval-IsGated_example :
    IsGated
      (passes waiting approval)
      waiting
      approval
      9
      (apply_technical_approval approval 9 waiting)
apply_technical_approval-IsGated_example = apply_technical_approval-IsGated waiting approval 9

may_recommend_po-transition_example :
    transition CaseState.po_recommendation "paul" "" 10 awaiting_award
    ≡ (ok tt, moved CaseState.po_recommendation "paul" "" 10 awaiting_award)
may_recommend_po-transition_example =
    may_recommend_po-transition default_policy awaiting_award true "paul" "" 10 recommended
