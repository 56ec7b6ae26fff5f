-- ===== src/Api/Signed.antt =====
-- What an award over the API needs and does.
use mathlib.Core.Path.{subst}
use procurement_automation.Prelude.{
  ℕ, ◌≡◌, refl, sym, ap, ◌∙◌, inl, inr, true, false, some, List, [], ◌∷◌, ◌++◌, String, str_eq,
  is_empty, Any, arith, Bool-cases,
}
use procurement_automation.Errors.{Error, ok}
use procurement_automation.Errors.Chain.{found, bind-ok, ok-injective}
use procurement_automation.Vocabulary.Access.{Permission}
use procurement_automation.Vocabulary.Case.{CaseState, ApprovalType}
use procurement_automation.Approval
use procurement_automation.Approval.{Approval}
use procurement_automation.Case.{SourcingCase, is_state_sound, record_award_approval}
use procurement_automation.Policy.Access.Duties.{Grants}
use procurement_automation.Policy.Agreement.{is_ok}
use procurement_automation.Policy.Award.{
  ApprovalRequirement, award_chain_satisfied, award_chain_missing,
}
use procurement_automation.Policy.Award.Signed.{AreSigned, satisfied-AreSigned}
use procurement_automation.Api.{Desk, ApprovalRequest, Context}
use procurement_automation.Api.Principal.{Principal, require}
use procurement_automation.Api.Store.{save, new_approval, record_approval}
use procurement_automation.Api.Recorded.{
  require-Grants, IsRecorded, record_approval-IsRecorded, save-IsSavedAs, found-some, settle-ok,
}
use procurement_automation.Api.Technical.{Outcome, settle}
use procurement_automation.Api.Award.{winner_of, chain_for, award_to, decide_award, approve_award}

awarded-case :
    (c : SourcingCase) (actor supplier : String) (now : ℕ)
    → is_ok (record_award_approval actor supplier now c).0 ≡ true
    → (c.state ≡ CaseState.waiting_for_award_approval)
      × (str_eq supplier "" ≡ false)
      × ((record_award_approval actor supplier now c).1.awarded_supplier_id ≡ supplier)
      × ((record_award_approval actor supplier now c).1.award_approved_at ≡ some now)
unfolding record_award_approval
awarded-case c actor supplier now h =
    (is_state_sound (ground arith), ground arith, ground arith, ground arith)

unsatisfied :
    (chain : List ApprovalRequirement) (approvals : List Approval)
    → award_chain_satisfied chain approvals ≡ false
    → is_empty (award_chain_missing chain approvals) ≡ false
unfolding award_chain_satisfied
unsatisfied chain approvals h = h

-- What the case is after each answer of `approve_award`, and who has signed.
abbrev pub IsAwardOutcome : Context → String → Outcome → Approval → Desk → Desk → Type 0
IsAwardOutcome ctx supplier Outcome.rejected a d d' =
    (Approval.is_positive a ≡ false) × (d'.case_row ≡ d.case_row)
IsAwardOutcome ctx supplier (Outcome.pending_further_approval missing) a d d' =
    (Approval.is_positive a ≡ true) × (is_empty missing ≡ false) × (d'.case_row ≡ d.case_row)
IsAwardOutcome ctx supplier Outcome.approved a d d' =
    (Approval.is_positive a ≡ true)
    × (before : SourcingCase) × (after : SourcingCase) × (d.case_row ≡ some before)
    × (before.state ≡ CaseState.waiting_for_award_approval)
    × AreSigned d'.approvals [] (chain_for ctx.policy before d (winner_of d.ranking supplier))
    × (d'.case_row ≡ some after)
    × (after.awarded_supplier_id ≡ supplier)
    × (after.award_approved_at ≡ some ctx.now)
    × (str_eq supplier "" ≡ false)

module _ (ctx : Context) (c : SourcingCase) (a : Approval) (supplier : String) where
  awarded-parts :
      (d : Desk) (r : Outcome × Desk)
      → award_to ctx c a supplier d ≡ ok r
      → (awarded : SourcingCase) × (saved : Desk) × (settle
            (record_award_approval a.actor_id supplier ctx.now c)
          ≡ ok awarded)
        × (save awarded d ≡ ok saved)
        × ((Outcome.approved, saved) ≡ r)
  unfolding award_to
  awarded-parts d r h =
      let (awarded, e1, h1) =
        bind-ok (settle (record_award_approval a.actor_id supplier ctx.now c)) _ r h in
      let (saved, e2, h2) = bind-ok (save awarded d) _ r h1 in
      (awarded, saved, e1, e2, ok-injective h2)

  award_to-IsAwardOutcome :
      (d0 d : Desk) (r : Outcome × Desk)
      → d0.case_row ≡ some c
      → Approval.is_positive a ≡ true
      → AreSigned d.approvals [] (chain_for ctx.policy c d0 (winner_of d0.ranking supplier))
      → award_to ctx c a supplier d ≡ ok r
      → IsAwardOutcome ctx supplier r.0 a d0 r.1 × (r.1.approvals ≡ d.approvals)
  award_to-IsAwardOutcome d0 d r here positive signed h =
      let (awarded, saved, e1, e2, e3) = awarded-parts d r h in
      let (went, became) =
        settle-ok (record_award_approval a.actor_id supplier ctx.now c) awarded e1 in
      let (state, named, to_supplier, at_now) = awarded-case c a.actor_id supplier ctx.now went in
      let (row, placed, kept) = save-IsSavedAs awarded d saved e2 in
      let same_approvals : saved.approvals ≡ d.approvals = ap (λ x. x.approvals) placed in
      rw (← e3) (
        (
          positive,
          c,
          row,
          here,
          state,
          rw same_approvals signed,
          ap (λ x. x.case_row) placed,
          kept.awarded ∙ (ap (λ x. x.awarded_supplier_id) (sym became) ∙ to_supplier),
          kept.award_time ∙ (ap (λ x. x.award_approved_at) (sym became) ∙ at_now),
          named,
        ),
        same_approvals,
      )

  decide_award-IsAwardOutcome :
      (d0 : Desk) (approvals : List Approval) (r : Outcome × Desk)
      → d0.case_row ≡ some c
      → decide_award ctx c supplier (a, record d0 { approvals = approvals }) ≡ ok r
      → IsAwardOutcome ctx supplier r.0 a d0 r.1 × (r.1.approvals ≡ approvals)
  unfolding chain_for
  decide_award-IsAwardOutcome d0 approvals r here h =
      let chain = chain_for ctx.policy c d0 (winner_of d0.ranking supplier) in
      elim (Bool-cases (Approval.is_positive a)) [
        | inr e ↦ rw (← ok-injective (rw e at h)) ((e, refl), refl)
        | inl e ↦ elim (Bool-cases (award_chain_satisfied chain approvals)) [
          | inr f ↦
              rw (← ok-injective (rw (e, f) at h)) ((e, unsatisfied chain approvals f, refl), refl)
          | inl f ↦
              award_to-IsAwardOutcome d0 (record d0 { approvals = approvals }) r here e
                (satisfied-AreSigned chain approvals f) (rw (e, f) at h)
        ]
      ]

-- What stands behind an answer of `approve_award`.
pub record IsAwardGate (ctx : Context) (p : Principal) (case_id : String) (body : ApprovalRequest)
    (supplier : String) (d : Desk) (r : Outcome × Desk) : Type 0 where
  pub permitted : Any (Grants Permission.award_approve) p.roles
  pub recorded :
      IsRecorded ctx p
        (new_approval ctx p case_id ApprovalType.award body supplier)
        d.approvals
        r.1.approvals
  pub outcome :
      IsAwardOutcome ctx supplier r.0
        (new_approval ctx p case_id ApprovalType.award body supplier)
        d
        r.1

-- If `approve_award` answers, the caller has a role that may award and a name that is no
-- service's, and the valid approval in that name is recorded. The case changes exactly on an answer
-- of APPROVED: it waited for the award, the approvals recorded so far sign every requirement of
-- the chain for the value of the award, and it is now awarded to the named supplier at this time.
-- REJECTED goes with a decision that does not grant, and PENDING_FURTHER_APPROVAL with one that
-- grants, and with requirements that are missing.
pub approve_award-IsAwardGate :
    (ctx : Context) (p : Principal) (case_id : String) (body : ApprovalRequest) (supplier : String)
    (d : Desk) (r : Outcome × Desk)
    → approve_award ctx p case_id body supplier d ≡ ok r
    → IsAwardGate ctx p case_id body supplier d r
unfolding approve_award
approve_award-IsAwardGate ctx p case_id body supplier d r h =
    let (_, e1, h1) = bind-ok (require p Permission.award_approve) _ r h in
    let (c, e2, h2) = bind-ok (found Error.not_found d.case_row) _ r h1 in
    let (recorded, e3, h3) =
      bind-ok (record_approval ctx p case_id ApprovalType.award body supplier d) _ r h2 in
    let (own, signed, placed) =
      record_approval-IsRecorded ctx p case_id ApprovalType.award body supplier d recorded e3 in
    let approvals = d.approvals ++ recorded.0 ∷ [] in
    let decided : decide_award ctx c supplier (recorded.0, record d { approvals = approvals })
        ≡ ok r =
      subst (λ x. decide_award ctx c supplier (recorded.0, x) ≡ ok r) placed h3 in
    let (outcome, kept) =
      decide_award-IsAwardOutcome ctx c recorded.0 supplier d approvals r
        (found-some Error.not_found d.case_row c e2) decided in
    record {
      permitted = require-Grants p Permission.award_approve e1;
      recorded = rw (← own) (record {
        human = signed.human;
        actor = signed.actor;
        roles = signed.roles;
        valid = signed.valid;
        recorded = kept;
      });
      outcome = rw (← own) outcome;
    }
