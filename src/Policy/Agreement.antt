-- ===== src/Policy/Agreement.antt =====
-- The policy's answers and the guards of the case agree, and the technical gate from end to end.
use procurement_automation.Prelude.{
  ℕ, ◌≡◌, refl, Bool, true, false, not, ◌&&◌, Option, String, arith,
}
use procurement_automation.Errors.{Result, ok, err}
use procurement_automation.Vocabulary.Case.{CaseState}
use procurement_automation.Case.{
  SourcingCase, is_state, is_state_sound, can_transition, transition, moved, register_reminder,
  open_negotiation_round,
}
use procurement_automation.Case.Graph.{can_move}
use procurement_automation.Policy.{ProcurementPolicy}
use procurement_automation.Policy.Cases.{
  may_send_reminder, may_open_negotiation, may_recommend_po, too_soon,
}

abbrev pub is_ok : {A : Type 0} → Result A → Bool
is_ok (ok _) = true
is_ok (err _) = false

module _ (p : ProcurementPolicy) (c : SourcingCase) (now : ℕ) where
  -- The policy allows a reminder exactly when `register_reminder` under the policy's limit would
  -- count it and the interval since the last contact, if one is given, has passed.
  pub may_send_reminder-register_reminder :
      (supplier : String) (last : Option ℕ)
      → (may_send_reminder p c supplier last now).allowed ≡ (
          is_ok (register_reminder supplier p.max_rfq_reminders now c).0
          && not (too_soon p last now))
  unfolding may_send_reminder register_reminder
  may_send_reminder-register_reminder supplier last = ground arith

  -- The policy allows a negotiation round exactly when `open_negotiation_round` under the
  -- policy's limit would open it.
  pub may_open_negotiation-open_negotiation_round :
      (may_open_negotiation p c).allowed
      ≡ is_ok (open_negotiation_round p.max_negotiation_rounds now c).0
  unfolding may_open_negotiation open_negotiation_round
  may_open_negotiation-open_negotiation_round = ground arith

-- The policy's answers agree with the guards of the case under the policy's limits: it allows a
-- reminder exactly when `register_reminder` would count it and the interval since the last contact,
-- if one is given, has passed; and a negotiation round exactly when `open_negotiation_round` would
-- open it.
pub policy-case_agree :
    (p : ProcurementPolicy) (c : SourcingCase) (now : ℕ) (supplier : String) (last : Option ℕ)
    → ((may_send_reminder p c supplier last now).allowed ≡ (
        is_ok (register_reminder supplier p.max_rfq_reminders now c).0
        && not (too_soon p last now)))
      × ((may_open_negotiation p c).allowed
          ≡ is_ok (open_negotiation_round p.max_negotiation_rounds now c).0)
policy-case_agree p c now supplier last = (
  may_send_reminder-register_reminder p c now supplier last,
  may_open_negotiation-open_negotiation_round p c now,
)

module _ (c : SourcingCase) where
  pub leaves : (s t : CaseState) → c.state ≡ s → can_move s t ≡ true → can_transition c t ≡ true
  unfolding can_transition
  leaves s t e h = rw e h

  pub not_there :
      (s t : CaseState) → c.state ≡ s → is_state t s ≡ false → is_state t c.state ≡ false
  not_there s t e h = rw e h

award_to_po : can_move CaseState.waiting_for_award_approval CaseState.po_recommendation ≡ true
unfolding can_move
award_to_po = refl

pub approval_to_commercial :
    can_move CaseState.waiting_for_technical_approval CaseState.commercial_evaluation ≡ true
unfolding can_move
approval_to_commercial = refl

pub distinct_states :
    (is_state CaseState.po_recommendation CaseState.waiting_for_award_approval ≡ false)
    × (is_state CaseState.po_recommendation CaseState.commercial_evaluation ≡ false)
    × (is_state CaseState.commercial_evaluation CaseState.waiting_for_technical_approval ≡ false)
    × (is_state CaseState.commercial_evaluation CaseState.po_recommendation ≡ false)
unfolding is_state
distinct_states = (refl, refl, refl, refl)

-- If the policy lets a purchase order be recommended, the transition of the case to
-- PO_RECOMMENDATION is accepted, by whomever it is made.
pub may_recommend_po-transition :
    (p : ProcurementPolicy) (c : SourcingCase) (chain_satisfied : Bool) (actor reason : String)
    (now : ℕ)
    → (may_recommend_po p c chain_satisfied).allowed ≡ true
    → transition CaseState.po_recommendation actor reason now c
      ≡ (ok tt, moved CaseState.po_recommendation actor reason now c)
unfolding may_recommend_po transition
may_recommend_po-transition p c chain_satisfied actor reason now h =
    let waiting : c.state ≡ CaseState.waiting_for_award_approval = is_state_sound (ground arith) in
    ground (
      arith,
      leaves c CaseState.waiting_for_award_approval CaseState.po_recommendation waiting award_to_po,
      not_there c CaseState.waiting_for_award_approval CaseState.po_recommendation waiting
          distinct_states.0,
      distinct_states.1,
    )
