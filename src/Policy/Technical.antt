-- ===== src/Policy/Technical.antt =====
-- `apply_technical_approval` from end to end: the only call that unseals the bids.
use Prim.Native.String.{◌++◌}
use procurement_automation.Prelude.{
  ℕ, ◌≡◌, refl, Bool, true, false, ◌&&◌, some, String, str_eq, eq_iff, arith, is_empty, Bool-cases,
  inl, inr, ap,
}
use procurement_automation.Prelude.Text.{codes, strip}
use procurement_automation.Errors.{Result, ok}
use procurement_automation.Vocabulary.Case.{CaseState, ApprovalType}
use procurement_automation.Approval
use procurement_automation.Approval.{Approval}
use procurement_automation.Case.{
  SourcingCase, is_state_sound, is_state_complete, is_system, transition, moved, unlock_commercial,
}
use procurement_automation.Policy.Agreement.{
  is_ok, leaves, not_there, approval_to_commercial, distinct_states,
}
use procurement_automation.Policy.Gate.{is_type, may_unlock_commercial, apply_technical_approval}

blank : is_empty (strip (codes "")) ≡ true
unfolding strip
blank = refl

-- An approval that validates names an actor that `unlock_commercial` accepts.
validate-is_system :
    (a : Approval) → is_ok (Approval.validate a) ≡ true → is_system a.actor_id ≡ false
unfolding Approval.validate
validate-is_system a h = elim (Bool-cases (str_eq a.actor_id "")) [
  | inl e ↦
      let p = ap (λ s. is_empty (strip (codes s))) ((eq_iff a.actor_id "").0 e) in
      ground (arith, p, blank)
  | inr e ↦ ground arith
]

-- The case after the unlock, before the transition.
abbrev pub unlocked : ℕ → SourcingCase → SourcingCase
unlocked now c = record c {
  commercial_unlocked = true;
  technical_approved_at = some now;
  updated_at = now;
}

unlock-ok :
    (c : SourcingCase) (actor : String) (now : ℕ)
    → c.state ≡ CaseState.waiting_for_technical_approval
    → is_system actor ≡ false
    → unlock_commercial actor now c ≡ (ok tt, unlocked now c)
unfolding unlock_commercial
unlock-ok c actor now e h =
    ground (arith, is_state_complete {s = c.state} {t = CaseState.waiting_for_technical_approval} e)

transition-ok :
    (c : SourcingCase) (actor reason : String) (now : ℕ)
    → c.state ≡ CaseState.waiting_for_technical_approval
    → transition CaseState.commercial_evaluation actor reason now (unlocked now c)
      ≡ (ok tt, moved CaseState.commercial_evaluation actor reason now (unlocked now c))
unfolding transition
transition-ok c actor reason now e = ground (
  arith,
  leaves (unlocked now c) CaseState.waiting_for_technical_approval CaseState.commercial_evaluation e
      approval_to_commercial,
  not_there (unlocked now c) CaseState.waiting_for_technical_approval
      CaseState.commercial_evaluation e distinct_states.2,
  distinct_states.3,
)

-- The approval passes its own checks and the policy's three tests.
abbrev pub passes : SourcingCase → Approval → Bool
passes c a = is_ok (Approval.validate a) && (may_unlock_commercial c a).allowed

passes-state :
    (c : SourcingCase) (a : Approval)
    → passes c a ≡ true
    → c.state ≡ CaseState.waiting_for_technical_approval
unfolding may_unlock_commercial
passes-state c a h = is_state_sound (ground arith)

passes-approval :
    (c : SourcingCase) (a : Approval)
    → passes c a ≡ true
    → (is_type a.approval_type ApprovalType.technical ≡ true) × (Approval.is_positive a ≡ true)
unfolding may_unlock_commercial
passes-approval c a h = ground arith

apply-passes :
    (c : SourcingCase) (a : Approval) (now : ℕ)
    → passes c a ≡ true
    → apply_technical_approval a now c ≡ (
      ok tt,
      moved CaseState.commercial_evaluation a.actor_id
          ("Technical approval " ++ a.approval_id)
          now
          (unlocked now c),
    )
unfolding apply_technical_approval
apply-passes c a now h =
    let e = passes-state c a h in
    let s = validate-is_system a (ground arith) in
    ground (
      arith,
      unlock-ok c a.actor_id now e s,
      transition-ok c a.actor_id ("Technical approval " ++ a.approval_id) now e,
    )

apply-fails :
    (c : SourcingCase) (a : Approval) (now : ℕ)
    → passes c a ≡ false
    → (is_ok (apply_technical_approval a now c).0 ≡ false)
      × ((apply_technical_approval a now c).1 ≡ c)
unfolding apply_technical_approval
apply-fails c a now h = ground arith

-- What `apply_technical_approval` does to the case, by whether the approval passes.
abbrev pub IsGated : Bool → SourcingCase → Approval → ℕ → Result (Unit {0}) × SourcingCase → Type 0
IsGated true c a now (r, c') =
    (r ≡ ok tt)
    × (c.state ≡ CaseState.waiting_for_technical_approval)
    × (is_type a.approval_type ApprovalType.technical ≡ true)
    × (Approval.is_positive a ≡ true)
    × (c'
        ≡ moved CaseState.commercial_evaluation a.actor_id ("Technical approval " ++ a.approval_id)
            now (unlocked now c))
IsGated false c a now (r, c') = (is_ok r ≡ false) × (c' ≡ c)

-- The technical gate is all or nothing. If the approval is valid and the policy allows the
-- unlock, which needs a positive TECHNICAL approval of a case in WAITING_FOR_TECHNICAL_APPROVAL,
-- the case is unlocked with the time of the approval and moves to COMMERCIAL_EVALUATION, with the
-- approval named in its history. Otherwise the call raises, and nothing of the case has changed.
pub apply_technical_approval-IsGated :
    (c : SourcingCase) (a : Approval) (now : ℕ)
    → IsGated (passes c a) c a now (apply_technical_approval a now c)
apply_technical_approval-IsGated c a now = elim (Bool-cases (passes c a)) [
  | inl h ↦
      rw (h, apply-passes c a now h)
        (let (technical, positive) = passes-approval c a h in
          (refl, passes-state c a h, technical, positive, refl))
  | inr h ↦ rw h (apply-fails c a now h)
]
