-- ===== src/Case/Trace/Limits.antt =====
-- The limits on reminders and negotiation rounds, and the states that are final, over any calls.
use procurement_automation.Prelude.{
  ℕ, ◌+◌, ◌≤◌, ◌≡◌, ◌∙◌, refl, ◌⊎◌, inl, inr, List, [], ◌∷◌, String, str_eq, All, arith,
  if◌then◌else◌,
}
use procurement_automation.Prelude.Dict
use procurement_automation.Vocabulary.Case.{CaseState}
use procurement_automation.Case.{
  SourcingCase, new_case, transition, unlock_commercial, record_award_approval, register_reminder,
  open_negotiation_round, can_transition, moved,
}
use procurement_automation.Case.Methods.{transition-cases, transition-stays, can_transition-⟶}
use procurement_automation.Case.Edges.{◌⟶◌, ⟶-can_move}
use procurement_automation.Case.Trace.Calls.{
  move, unlock, award, remind, negotiate, Timed, after, run,
}

-- Each reminder and each round of the calls was made under at most these limits.
abbrev pub IsLimited : ℕ → ℕ → Timed → Type 0
IsLimited reminders rounds (remind _ limit, _) = limit ≤ reminders
IsLimited reminders rounds (negotiate limit, _) = limit ≤ rounds
IsLimited reminders rounds _ = Unit

abbrev pub sent_to : SourcingCase → String → ℕ
sent_to c supplier = Dict.get_or c.reminder_count_by_supplier supplier 0

sent-put :
    (d : Dict.Dict ℕ) (k j : String) (v : ℕ)
    → Dict.get_or (Dict.put d k v) j 0 ≡ (if str_eq k j then v else Dict.get_or d j 0)
unfolding Dict.get_or
sent-put d k j v = ground (arith, Dict.get-put d k j v)

module _ (reminders rounds : ℕ) where
  after_reminders :
      (call : Timed) (c : SourcingCase) (supplier : String)
      → IsLimited reminders rounds call
      → sent_to c supplier ≤ reminders
      → sent_to (after call c) supplier ≤ reminders
  unfolding after unlock_commercial record_award_approval register_reminder open_negotiation_round
  after_reminders (move s actor reason, now) c supplier l h =
      rw (transition-stays c now s actor reason).2 h
  after_reminders (unlock actor, now) c supplier l h = ground arith
  after_reminders (award actor who, now) c supplier l h = ground arith
  after_reminders (remind who limit, now) c supplier l h =
      ground (arith, sent-put c.reminder_count_by_supplier who supplier (sent_to c who + 1))
  after_reminders (negotiate limit, now) c supplier l h = ground arith

  after_rounds :
      (call : Timed) (c : SourcingCase)
      → IsLimited reminders rounds call
      → c.negotiation_round ≤ rounds
      → (after call c).negotiation_round ≤ rounds
  unfolding after unlock_commercial record_award_approval register_reminder open_negotiation_round
  after_rounds (move s actor reason, now) c l h = rw (transition-stays c now s actor reason).3 h
  after_rounds (unlock actor, now) c l h = ground arith
  after_rounds (award actor who, now) c l h = ground arith
  after_rounds (remind who limit, now) c l h = ground arith
  after_rounds (negotiate limit, now) c l h = ground arith

  run_from_limits :
      (calls : List Timed) (c : SourcingCase)
      → All (IsLimited reminders rounds) calls
      → ((supplier : String) → sent_to c supplier ≤ reminders)
      → c.negotiation_round ≤ rounds
      → ((supplier : String) → sent_to (run calls c) supplier ≤ reminders)
        × ((run calls c).negotiation_round ≤ rounds)
  unfolding run
  run_from_limits [] c l h k = (h, k)
  run_from_limits (call ∷ calls) c l h k =
      run_from_limits calls (after call c) l.1
        (λ supplier. after_reminders call c supplier l.0 (h supplier)) (after_rounds call c l.0 k)

-- If every reminder and every round was requested under these limits, then after any calls on a
-- new case no supplier has more reminders than the first and the case no more rounds than the
-- second, whatever else was called in between.
pub run_limits :
    (case_id pr_number : String) (start reminders rounds : ℕ) (calls : List Timed)
    → All (IsLimited reminders rounds) calls
    → let c = run calls (new_case case_id pr_number start) in
      ((supplier : String) → sent_to c supplier ≤ reminders) × (c.negotiation_round ≤ rounds)
unfolding new_case Dict.get_or
run_limits case_id pr_number start reminders rounds calls l =
    run_from_limits reminders rounds calls (new_case case_id pr_number start) l
      (λ supplier. omega arith) (omega arith)

-- The states that nothing leaves.
abbrev pub IsFinal : CaseState → Type 0
IsFinal s = (s ≡ CaseState.completed) ⊎ (s ≡ CaseState.cancelled)

no_edge : {s t : CaseState} → s ⟶ t → ¬ IsFinal s
no_edge procurement_automation.Case.Edges.received_validating_pr h = ground arith
no_edge _ h = ground arith

after_final : (call : Timed) (c : SourcingCase) → IsFinal c.state → (after call c).state ≡ c.state
unfolding after unlock_commercial record_award_approval register_reminder open_negotiation_round
after_final (move s actor reason, now) c h = elim (transition-cases c now s actor reason) [
  | inl same ↦ rw same
  | inr (new, legal, _, _) ↦ absurd (no_edge (can_transition-⟶ c s legal) h)
]
after_final (unlock actor, now) c h = ground arith
after_final (award actor who, now) c h = ground arith
after_final (remind who limit, now) c h = ground arith
after_final (negotiate limit, now) c h = ground arith

-- No calls take a completed or a cancelled case to another state.
pub run_final :
    (calls : List Timed) (c : SourcingCase) → IsFinal c.state → (run calls c).state ≡ c.state
unfolding run
run_final [] c h = refl
run_final (call ∷ calls) c h =
    let same = after_final call c h in run_final calls (after call c) (rw same h) ∙ same
