-- ===== src/Case/Invariant.antt =====
-- The invariant of a case between two calls, and that every method keeps it.
use procurement_automation.Prelude.{
  ℕ, suc, ◌<◌, ◌≡◌, ◌⊎◌, inl, inr, Bool, true, false, String, str_eq, length, length-append, arith,
}
use procurement_automation.Vocabulary.Case.{CaseState}
use procurement_automation.Case.Edges
use procurement_automation.Case.Edges.{◌⟶◌, can_move-⟶}
use procurement_automation.Case.Methods.{transition-cases, can_transition-⟶}
use procurement_automation.Case.{
  SourcingCase, is_none, is_state_sound, is_state_complete, moved, new_case, transition,
  unlock_commercial, record_award_approval, register_reminder, open_negotiation_round,
}

-- The states in which prices are worked on or have been.
abbrev pub is_commercial : CaseState → Bool
is_commercial CaseState.commercial_evaluation = true
is_commercial CaseState.negotiation = true
is_commercial CaseState.waiting_for_award_approval = true
is_commercial CaseState.po_recommendation = true
is_commercial CaseState.order_placed = true
is_commercial CaseState.expediting = true
is_commercial CaseState.completed = true
is_commercial _ = false

-- The states that follow an award.
abbrev pub is_ordered : CaseState → Bool
is_ordered CaseState.po_recommendation = true
is_ordered CaseState.order_placed = true
is_ordered CaseState.expediting = true
is_ordered CaseState.completed = true
is_ordered _ = false

pub record IsSound (c : SourcingCase) : Type 0 where
  pub unsealed : is_commercial c.state ≡ true → c.commercial_unlocked ≡ true
  pub approved : c.commercial_unlocked ≡ true → is_none c.technical_approved_at ≡ false
  pub awarded : is_ordered c.state ≡ true → is_none c.award_approved_at ≡ false
  pub named : is_none c.award_approved_at ≡ false → str_eq c.awarded_supplier_id "" ≡ false
  pub award_unsealed : is_none c.award_approved_at ≡ false → c.commercial_unlocked ≡ true
  pub negotiated : 0 < c.negotiation_round → c.commercial_unlocked ≡ true
  pub versioned : c.version ≡ suc (length c.state_history)

commercial_edge :
    {s t : CaseState}
    → s ⟶ t
    → is_commercial t ≡ true
    → (is_commercial s ≡ true) ⊎ (t ≡ CaseState.commercial_evaluation)
commercial_edge Edges.received_validating_pr h = cc
commercial_edge _ h = ground arith

ordered_edge :
    {s t : CaseState}
    → s ⟶ t
    → is_ordered t ≡ true
    → (is_ordered s ≡ true) ⊎ (t ≡ CaseState.po_recommendation)
ordered_edge Edges.received_validating_pr h = cc
ordered_edge _ h = ground arith

pub new_case-IsSound :
    (case_id pr_number : String) (now : ℕ) → IsSound (new_case case_id pr_number now)
unfolding new_case
new_case-IsSound case_id pr_number now = ground arith

module _ (c : SourcingCase) (now : ℕ) (v : IsSound c) where
  moved-IsSound :
      (s : CaseState) (actor reason : String)
      → c.state ⟶ s
      → (s ≡ CaseState.commercial_evaluation → c.commercial_unlocked ≡ true)
      → (s ≡ CaseState.po_recommendation → is_none c.award_approved_at ≡ false)
      → IsSound (moved s actor reason now c)
  unfolding moved
  moved-IsSound s actor reason e gate award = record {
    unsealed = λ h. elim (commercial_edge e h) [ inl p ↦ v.unsealed p | inr p ↦ gate p ];
    approved = v.approved;
    awarded = λ h. elim (ordered_edge e h) [ inl p ↦ v.awarded p | inr p ↦ award p ];
    named = v.named;
    award_unsealed = v.award_unsealed;
    negotiated = v.negotiated;
    versioned = omega (arith, v.versioned, length-append {0} c.state_history);
  }

  pub transition-IsSound :
      (s : CaseState) (actor reason : String) → IsSound (transition s actor reason now c).1
  transition-IsSound s actor reason = elim (transition-cases c now s actor reason) [
    | inl same ↦ rw same v
    | inr (new, legal, gate, award) ↦ rw new (
        moved-IsSound s actor reason (can_transition-⟶ c s legal)
          (λ p. ground (arith, is_state_complete p)) (λ p. ground (arith, is_state_complete p)))
  ]

  pub unlock_commercial-IsSound : (actor : String) → IsSound (unlock_commercial actor now c).1
  unfolding unlock_commercial
  unlock_commercial-IsSound actor = ground arith

  pub record_award_approval-IsSound :
      (actor supplier : String) → IsSound (record_award_approval actor supplier now c).1
  unfolding record_award_approval
  record_award_approval-IsSound actor supplier =
      ground (arith, is_state_sound {s = c.state} {t = CaseState.waiting_for_award_approval})

  pub register_reminder-IsSound :
      (supplier : String) (limit : ℕ) → IsSound (register_reminder supplier limit now c).1
  unfolding register_reminder
  register_reminder-IsSound supplier limit = ground arith

  pub open_negotiation_round-IsSound : (limit : ℕ) → IsSound (open_negotiation_round limit now c).1
  unfolding open_negotiation_round
  open_negotiation_round-IsSound limit = ground arith
