-- ===== src/Case/Trace/Seal.antt =====
-- Commercial data stays sealed until a person has approved, and orders follow an award.
use procurement_automation.Prelude.{
  ℕ, ◌≡◌, List, [], ◌∷◌, String, true, false, Any, ◌⊎◌, inl, inr, arith,
}
use procurement_automation.Case.{
  SourcingCase, new_case, is_none, is_system, unlock_commercial, record_award_approval,
  register_reminder, open_negotiation_round,
}
use procurement_automation.Case.Methods.{transition-stays}
use procurement_automation.Case.Invariant.{IsSound, is_commercial, is_ordered, new_case-IsSound}
use procurement_automation.Case.Trace.Calls.{
  move, unlock, award, remind, negotiate, Timed, after, run, after-IsSound,
}

run_from-IsSound : (calls : List Timed) (c : SourcingCase) → IsSound c → IsSound (run calls c)
unfolding run
run_from-IsSound [] c v = v
run_from-IsSound (call ∷ calls) c v = run_from-IsSound calls (after call c) (after-IsSound call c v)

-- After any calls, accepted or refused, on a new case: in every commercial state the bids are
-- unlocked and the time of the technical approval is recorded; from PO_RECOMMENDATION on an
-- award approval is recorded and names a supplier; an award or a negotiation round comes after
-- the unlock; the version counts the history.
pub run-IsSound :
    (case_id pr_number : String) (start : ℕ) (calls : List Timed)
    → IsSound (run calls (new_case case_id pr_number start))
run-IsSound case_id pr_number start calls =
    run_from-IsSound calls (new_case case_id pr_number start)
      (new_case-IsSound case_id pr_number start)

-- A call that unlocks, or that awards, in the name of a person.
abbrev pub IsHumanUnlock : Timed → Type 0
IsHumanUnlock (unlock actor, _) = is_system actor ≡ false
IsHumanUnlock _ = ⊥

abbrev pub IsHumanAward : Timed → Type 0
IsHumanAward (award actor _, _) = is_system actor ≡ false
IsHumanAward _ = ⊥

after_unlocked :
    (call : Timed) (c : SourcingCase)
    → (after call c).commercial_unlocked ≡ true
    → (c.commercial_unlocked ≡ true) ⊎ IsHumanUnlock call
unfolding after unlock_commercial record_award_approval register_reminder open_negotiation_round
after_unlocked (move s actor reason, now) c h =
    inl (rw (transition-stays c now s actor reason).0 at h)
after_unlocked (unlock actor, now) c h = ground arith
after_unlocked (award actor supplier, now) c h = inl (ground arith)
after_unlocked (remind supplier limit, now) c h = inl (ground arith)
after_unlocked (negotiate limit, now) c h = inl (ground arith)

run_unlocked :
    (calls : List Timed) (c : SourcingCase)
    → (run calls c).commercial_unlocked ≡ true
    → (c.commercial_unlocked ≡ true) ⊎ Any IsHumanUnlock calls
unfolding run
run_unlocked [] c h = inl h
run_unlocked (call ∷ calls) c h = elim (run_unlocked calls (after call c) h) [
  | inr later ↦ inr (inr later)
  | inl p ↦ elim (after_unlocked call c p) [ inl q ↦ inl q | inr q ↦ inr (inl q) ]
]

-- A new case reaches no commercial state unless some call of `unlock_commercial` named an actor
-- other than the empty one and SYSTEM.
pub commercial_needs_human :
    (case_id pr_number : String) (start : ℕ) (calls : List Timed)
    → is_commercial (run calls (new_case case_id pr_number start)).state ≡ true
    → Any IsHumanUnlock calls
unfolding new_case
commercial_needs_human case_id pr_number start calls h =
    elim (run_unlocked calls (new_case case_id pr_number start)
      ((run-IsSound case_id pr_number start calls).unsealed h)) [ inl p ↦ cc | inr q ↦ q ]

after_awarded :
    (call : Timed) (c : SourcingCase)
    → is_none (after call c).award_approved_at ≡ false
    → (is_none c.award_approved_at ≡ false) ⊎ IsHumanAward call
unfolding after unlock_commercial record_award_approval register_reminder open_negotiation_round
after_awarded (move s actor reason, now) c h =
    inl (rw (transition-stays c now s actor reason).1 at h)
after_awarded (unlock actor, now) c h = inl (ground arith)
after_awarded (award actor supplier, now) c h = ground arith
after_awarded (remind supplier limit, now) c h = inl (ground arith)
after_awarded (negotiate limit, now) c h = inl (ground arith)

run_awarded :
    (calls : List Timed) (c : SourcingCase)
    → is_none (run calls c).award_approved_at ≡ false
    → (is_none c.award_approved_at ≡ false) ⊎ Any IsHumanAward calls
unfolding run
run_awarded [] c h = inl h
run_awarded (call ∷ calls) c h = elim (run_awarded calls (after call c) h) [
  | inr later ↦ inr (inr later)
  | inl p ↦ elim (after_awarded call c p) [ inl q ↦ inl q | inr q ↦ inr (inl q) ]
]

-- A new case reaches PO_RECOMMENDATION or a later state only if some call unlocked it and some
-- call awarded it, each in the name of an actor other than the empty one and SYSTEM.
pub order_needs_humans :
    (case_id pr_number : String) (start : ℕ) (calls : List Timed)
    → is_ordered (run calls (new_case case_id pr_number start)).state ≡ true
    → Any IsHumanUnlock calls × Any IsHumanAward calls
unfolding new_case
order_needs_humans case_id pr_number start calls h =
    let c = new_case case_id pr_number start in
    let v = run-IsSound case_id pr_number start calls in
    (
      elim (run_unlocked calls c (v.award_unsealed (v.awarded h))) [ inl p ↦ cc | inr q ↦ q ],
      elim (run_awarded calls c (v.awarded h)) [ inl p ↦ cc | inr q ↦ q ],
    )
