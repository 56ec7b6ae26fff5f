-- ===== src/Case/Methods.antt =====
-- What each method of a case does on every branch: a refusal changes nothing, and a transition is a
-- legal move past both gates.
use procurement_automation.Prelude.{
  ℕ, refl, inl, inr, Bool-cases, str_eq, if◌then◌else◌, ◌≡◌, ◌⊎◌, true, false, not, ◌&&◌, String,
  arith,
}
use procurement_automation.Case.Graph.{can_move}
use procurement_automation.Case.Edges.{◌⟶◌, can_move-⟶}
use procurement_automation.Errors.{Error, Result, ok, err}
use procurement_automation.Vocabulary.Case.{CaseState}
use procurement_automation.Case.{
  SourcingCase, is_none, is_state, can_transition, moved, transition, unlock_commercial,
  record_award_approval, register_reminder, open_negotiation_round,
}

-- What a call that began at `c` did to the case, if it raised.
abbrev pub IsAtomic : {A : Type 0} → SourcingCase → Result A × SourcingCase → Type 0
IsAtomic c (ok _, c') = Unit
IsAtomic c (err _, c') = c' ≡ c

pub can_transition-⟶ : (c : SourcingCase) (s : CaseState) → can_transition c s ≡ true → c.state ⟶ s
unfolding can_transition
can_transition-⟶ c s h = can_move-⟶ c.state s h

module _ (c : SourcingCase) (now : ℕ) where
  -- A transition is a legal move past both gates, or it changes nothing.
  pub transition-cases :
      (s : CaseState) (actor reason : String)
      → ((transition s actor reason now c).1 ≡ c)
        ⊎ (((transition s actor reason now c).1 ≡ moved s actor reason now c)
            × (can_transition c s ≡ true)
            × ((is_state s CaseState.commercial_evaluation && not c.commercial_unlocked) ≡ false)
            × ((is_state s CaseState.po_recommendation && is_none c.award_approved_at) ≡ false))
  unfolding transition
  transition-cases s actor reason = ground arith

  -- Whatever a method raises, it raises before it writes: a call of `transition`,
  -- `unlock_commercial`, `record_award_approval`, `register_reminder` or `open_negotiation_round`
  -- that fails leaves the case as it was.
  pub methods-AreAtomic :
      (s : CaseState) (actor reason supplier : String) (limit : ℕ)
      → IsAtomic c (transition s actor reason now c)
        × IsAtomic c (unlock_commercial actor now c)
        × IsAtomic c (record_award_approval actor supplier now c)
        × IsAtomic c (register_reminder supplier limit now c)
        × IsAtomic c (open_negotiation_round limit now c)
  unfolding transition unlock_commercial record_award_approval register_reminder
      open_negotiation_round
  methods-AreAtomic s actor reason supplier limit =
      (ground arith, ground arith, ground arith, ground arith, ground arith)

-- A transition writes neither the seal nor the award.
pub transition-stays :
    (c : SourcingCase) (now : ℕ) (s : CaseState) (actor reason : String)
    → let c' = (transition s actor reason now c).1 in
      (c'.commercial_unlocked ≡ c.commercial_unlocked)
      × (c'.award_approved_at ≡ c.award_approved_at)
      × (c'.reminder_count_by_supplier ≡ c.reminder_count_by_supplier)
      × (c'.negotiation_round ≡ c.negotiation_round)
unfolding transition moved
transition-stays c now s actor reason = ground arith

-- What cancelling a case in a state does.
abbrev pub IsCancellation :
    CaseState → String → SourcingCase → Result (Unit {0}) × SourcingCase → Type 0
IsCancellation CaseState.completed reason c r = r ≡ (err Error.unsafe_transition, c)
IsCancellation CaseState.cancelled reason c r = r ≡ (ok tt, c)
IsCancellation _ reason c (answer, c') =
    (answer ≡ ok tt)
    × (c'.state ≡ CaseState.cancelled)
    × (c'.cancellation_reason ≡ (if str_eq reason "" then c.cancellation_reason else reason))

cancelled_reason :
    (c : SourcingCase) (actor reason : String) (now : ℕ)
    → (moved CaseState.cancelled actor reason now c).cancellation_reason
      ≡ (if str_eq reason "" then c.cancellation_reason else reason)
unfolding moved is_state
cancelled_reason c actor reason now = elim (Bool-cases (str_eq reason "")) [
  | inl e ↦ rw e refl
  | inr e ↦ rw e refl
]

cancelled-from :
    (s : CaseState) (actor reason : String) (now : ℕ) (c : SourcingCase)
    → c.state ≡ s
    → IsCancellation s reason c (transition CaseState.cancelled actor reason now c)
unfolding transition can_transition can_move is_state moved
cancelled-from CaseState.completed actor reason now c at = rw at refl
cancelled-from CaseState.cancelled actor reason now c at = rw at refl
cancelled-from s actor reason now c at = rw at (refl, refl, cancelled_reason c actor reason now)

-- From every state but COMPLETED one call of `transition` cancels the case, whatever its fields are,
-- and keeps the reason unless it is empty; a case that is cancelled already stays as it was, and for
-- a completed one the call raises and changes nothing.
pub transition-IsCancellation :
    (c : SourcingCase) (actor reason : String) (now : ℕ)
    → IsCancellation c.state reason c (transition CaseState.cancelled actor reason now c)
transition-IsCancellation c actor reason now = cancelled-from c.state actor reason now c refl
