-- ===== src/Api/Gates.antt =====
-- What a technical approval over the API needs and does.
use procurement_automation.Prelude.{
  ℕ, ◌≡◌, refl, sym, ap, ◌∙◌, inl, inr, Bool, true, false, some, List, String, All, Any, Bool-cases,
}
use procurement_automation.Errors.{Error, Result, ok}
use procurement_automation.Errors.Chain.{found, bind-ok, ok-injective}
use procurement_automation.Vocabulary.Access.{Permission}
use procurement_automation.Vocabulary.Case.{CaseState, ApprovalType}
use procurement_automation.Approval
use procurement_automation.Approval.{Approval}
use procurement_automation.Case.{SourcingCase, moved}
use procurement_automation.Policy.Access.Duties.{Grants}
use procurement_automation.Policy.Agreement.{is_ok}
use procurement_automation.Policy.Gate.{apply_technical_approval}
use procurement_automation.Policy.Technical.{
  passes, IsGated, unlocked, apply_technical_approval-IsGated,
}
use procurement_automation.Quotation.{Quotation}
use procurement_automation.Quotation.Unseal.{is_closed, unseal_case}
use procurement_automation.Quotation.Guard.{unseal_case-IsUnsealing}
use procurement_automation.Api.{Desk, ApprovalRequest, Context}
use procurement_automation.Api.Principal.{Principal, require}
use procurement_automation.Api.Store.{save, new_approval, record_approval}
use procurement_automation.Api.Recorded.{
  require-Grants, IsRecorded, record_approval-IsRecorded, save-IsSavedAs, found-some, settle-ok,
  some_case,
}
use procurement_automation.Api.Technical.{
  Outcome, settle, with_quotations, unlock_and_unseal, decide_technical, approve_technical,
}

-- What the case and the quotations are after each answer of `approve_technical`.
abbrev pub IsTechnicalOutcome : Outcome → Approval → Desk → Desk → Type 0
IsTechnicalOutcome Outcome.rejected a d d' =
    (Approval.is_positive a ≡ false) × (d'.case_row ≡ d.case_row) × (d'.quotations ≡ d.quotations)
IsTechnicalOutcome Outcome.approved a d d' =
    (Approval.is_positive a ≡ true)
    × (before : SourcingCase) × (after : SourcingCase) × (d.case_row ≡ some before)
    × (before.state ≡ CaseState.waiting_for_technical_approval)
    × (d'.case_row ≡ some after)
    × (after.state ≡ CaseState.commercial_evaluation)
    × (after.commercial_unlocked ≡ true)
    × All (λ q. is_closed q ≡ false) d'.quotations
IsTechnicalOutcome (Outcome.pending_further_approval _) a d d' = ⊥

-- An approval that goes through leaves the case unlocked, in COMMERCIAL_EVALUATION.
gated-unlocked :
    (passed : Bool) (c : SourcingCase) (a : Approval) (now : ℕ) (r : Result (Unit {0}))
    (c' : SourcingCase)
    → IsGated passed c a now (r, c')
    → is_ok r ≡ true
    → (c.state ≡ CaseState.waiting_for_technical_approval)
      × (Approval.is_positive a ≡ true)
      × (c'.state ≡ CaseState.commercial_evaluation)
      × (c'.commercial_unlocked ≡ true)
unfolding moved
gated-unlocked true c a now r c' (_, state, _, positive, e) h =
    (state, positive, ap (λ x. x.state) e, ap (λ x. x.commercial_unlocked) e)
gated-unlocked false c a now r c' (e, _) h = cc

module _ (ctx : Context) (c : SourcingCase) (a : Approval) where
  -- The four links of `unlock_and_unseal`.
  AreLinks :
      Desk → Outcome × Desk → SourcingCase → Desk → SourcingCase → ℕ × List Quotation → Type 0
  AreLinks d r unlocked saved row opened =
      (settle (apply_technical_approval a ctx.now c) ≡ ok unlocked)
      × (save unlocked d ≡ ok saved)
      × (found Error.not_found saved.case_row ≡ ok row)
      × (unseal_case ctx.service row a.actor_id ctx.now saved.quotations ≡ ok opened)
      × ((Outcome.approved, with_quotations saved opened) ≡ r)

  unlock_and_unseal-AreLinks :
      (d : Desk) (r : Outcome × Desk)
      → unlock_and_unseal ctx c a d ≡ ok r
      → (unlocked : SourcingCase) × (saved : Desk) × (row : SourcingCase) × (opened : ℕ
          × List Quotation)
        × AreLinks d r unlocked saved row opened
  unfolding unlock_and_unseal AreLinks
  unlock_and_unseal-AreLinks d r h =
      let (unlocked, e1, h1) = bind-ok (settle (apply_technical_approval a ctx.now c)) _ r h in
      let (saved, e2, h2) = bind-ok (save unlocked d) _ r h1 in
      let (row, e3, h3) = bind-ok (found Error.not_found saved.case_row) _ r h2 in
      let (opened, e4, h4) =
        bind-ok (unseal_case ctx.service row a.actor_id ctx.now saved.quotations) _ r h3 in
      (unlocked, saved, row, opened, (e1, e2, e3, e4, ok-injective h4))

  links-IsTechnicalOutcome :
      (d0 d : Desk) (r : Outcome × Desk) (unlocked : SourcingCase) (saved : Desk)
      (row : SourcingCase) (opened : ℕ × List Quotation)
      → d0.case_row ≡ some c
      → AreLinks d r unlocked saved row opened
      → IsTechnicalOutcome r.0 a d0 r.1 × (r.1.approvals ≡ d.approvals)
  unfolding AreLinks
  links-IsTechnicalOutcome d0 d r unlocked saved row opened here (e1, e2, e3, e4, e5) =
      let (went, became) = settle-ok (apply_technical_approval a ctx.now c) unlocked e1 in
      let (state, positive, state', unlocked') =
        gated-unlocked (passes c a) c a ctx.now (apply_technical_approval a ctx.now c).0
          (apply_technical_approval a ctx.now c).1 (apply_technical_approval-IsGated c a ctx.now)
          went in
      let (stored, placed, kept) = save-IsSavedAs unlocked d saved e2 in
      let found_row : saved.case_row ≡ some row =
        found-some Error.not_found saved.case_row row e3 in
      let same : stored ≡ row = some_case (sym (ap (λ x. x.case_row) placed) ∙ found_row) in
      let done =
        unseal_case-IsUnsealing ctx.service row a.actor_id ctx.now saved.quotations opened.0
          opened.1 e4 in
      rw (← e5) (
        (
          positive,
          c,
          row,
          here,
          state,
          found_row,
          ap (λ x. x.state) (sym same) ∙ (kept.state ∙ (ap (λ x. x.state) (sym became) ∙ state')),
          done.unlocked,
          done.all_open,
        ),
        ap (λ x. x.approvals) placed,
      )

  decide_technical-IsTechnicalOutcome :
      (d0 d : Desk) (r : Outcome × Desk)
      → d0.case_row ≡ some c
      → d.case_row ≡ d0.case_row
      → d.quotations ≡ d0.quotations
      → decide_technical ctx c (a, d) ≡ ok r
      → IsTechnicalOutcome r.0 a d0 r.1 × (r.1.approvals ≡ d.approvals)
  decide_technical-IsTechnicalOutcome d0 d r here same_case same_rows h =
      elim (Bool-cases (Approval.is_positive a)) [
        | inr e ↦ rw (← ok-injective (rw e at h)) ((e, same_case, same_rows), refl)
        | inl e ↦
            let (unlocked, saved, row, opened, links) =
              unlock_and_unseal-AreLinks d r (rw e at h) in
            links-IsTechnicalOutcome d0 d r unlocked saved row opened here links
      ]

-- What stands behind an answer of `approve_technical`.
pub record IsTechnicalGate (ctx : Context) (p : Principal) (case_id : String)
    (body : ApprovalRequest) (d : Desk) (r : Outcome × Desk) : Type 0 where
  pub permitted : Any (Grants Permission.technical_approve) p.roles
  pub recorded :
      IsRecorded ctx p
        (new_approval ctx p case_id ApprovalType.technical body "")
        d.approvals
        r.1.approvals
  pub outcome :
      IsTechnicalOutcome r.0 (new_approval ctx p case_id ApprovalType.technical body "") d r.1

-- If `approve_technical` answers, the caller has a role that may approve technically and a name
-- that is no service's, and the valid approval in that name is recorded. An answer of REJECTED
-- goes with a decision that does not grant, and leaves the case and the quotations as they were.
-- An answer of APPROVED goes with one that grants, for a case that waited for it; the case is then
-- unlocked and in COMMERCIAL_EVALUATION, and no listed quotation is still sealed.
pub approve_technical-IsTechnicalGate :
    (ctx : Context) (p : Principal) (case_id : String) (body : ApprovalRequest) (d : Desk)
    (r : Outcome × Desk)
    → approve_technical ctx p case_id body d ≡ ok r
    → IsTechnicalGate ctx p case_id body d r
unfolding approve_technical
approve_technical-IsTechnicalGate ctx p case_id body d r h =
    let (_, e1, h1) = bind-ok (require p Permission.technical_approve) _ r h in
    let (c, e2, h2) = bind-ok (found Error.not_found d.case_row) _ r h1 in
    let (recorded, e3, h3) =
      bind-ok (record_approval ctx p case_id ApprovalType.technical body "" d) _ r h2 in
    let (own, signed, placed) =
      record_approval-IsRecorded ctx p case_id ApprovalType.technical body "" d recorded e3 in
    let (outcome, kept) =
      decide_technical-IsTechnicalOutcome ctx c recorded.0 d recorded.1 r
        (found-some Error.not_found d.case_row c e2) (ap (λ x. x.case_row) placed)
        (ap (λ x. x.quotations) placed) h3 in
    record {
      permitted = require-Grants p Permission.technical_approve e1;
      recorded = rw (← own, kept) signed;
      outcome = rw (← own) outcome;
    }
