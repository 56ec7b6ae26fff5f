-- ===== src/Api/Released.antt =====
-- What a released purchase order needs and does.
use mathlib.Core.Path.{subst}
use procurement_automation.Prelude.{
  ℕ, ◌≡◌, refl, sym, ap, ◌∙◌, ◌⊎◌, inl, inr, Bool, true, false, not, Option, some, List, String,
  any, Any, arith, Bool-cases,
}
use procurement_automation.Errors.{Error, Result, ok}
use procurement_automation.Errors.Chain.{found, refuse_if, bind-ok, ok-injective, ◌>>=◌}
use procurement_automation.Vocabulary.Access.{Permission}
use procurement_automation.Vocabulary.Case.{CaseState, ApprovalType}
use procurement_automation.Approval.{Approval}
use procurement_automation.Case.{SourcingCase, is_state, is_state_sound, moved, transition}
use procurement_automation.Policy.Access.Duties.{Grants}
use procurement_automation.Policy.Agreement.{is_ok}
use procurement_automation.Api.{Desk, Context}
use procurement_automation.Api.Principal.{Principal, require}
use procurement_automation.Api.Store.{save, new_approval, record_approval}
use procurement_automation.Api.Recorded.{
  require-Grants, IsRecorded, record_approval-IsRecorded, save-IsSavedAs, found-some, settle-ok,
}
use procurement_automation.Api.Technical.{settle}
use procurement_automation.Api.Order.{
  Recommendation, ReleasePoRequest, is_no_person, is_order_approval, mark_released, release,
  place_order, order_approval, release_po,
}

-- A guard that did not raise.
refuse_if-link :
    {A : Type 0} (b : Bool) (e : Error) (m : Result A) (a : A)
    → refuse_if b e >>= (λ _. m) ≡ ok a
    → (b ≡ false) × (m ≡ ok a)
refuse_if-link true e m a h = cc
refuse_if-link false e m a h = (refl, h)

-- The guards of the service.
release-ok :
    (ctx : Context) (actor erp : String) (approvals : List Approval) (rec after : Recommendation)
    → release ctx actor erp approvals rec ≡ ok after
    → (rec.approval_chain_satisfied ≡ true)
      × (is_no_person ctx.service.unicode actor ≡ false)
      × (after ≡ mark_released actor erp ctx.now rec)
unfolding release
release-ok ctx actor erp approvals rec after h =
    let (e1, h1) =
      refuse_if-link (not rec.approval_chain_satisfied) Error.policy_violation _ after h in
    let (e2, h2) =
      refuse_if-link (is_no_person ctx.service.unicode actor) Error.policy_violation _ after h1 in
    let (e3, h3) =
      refuse_if-link (not (any is_order_approval approvals)) Error.policy_violation _ after h2 in
    (ground arith, e2, sym (ok-injective h3))

-- A case that waits for its order goes on, any other stays as it was.
abbrev pub IsPlaced : SourcingCase → Option SourcingCase → Desk → Type 0
IsPlaced c row d' =
    ((c.state ≡ CaseState.po_recommendation)
      × (after : SourcingCase) × (d'.case_row ≡ some after)
      × (after.state ≡ CaseState.order_placed))
    ⊎ ((is_state c.state CaseState.po_recommendation ≡ false) × (d'.case_row ≡ row))

-- A transition that does not raise leaves the case in the new state.
transition-state :
    (s : CaseState) (actor reason : String) (now : ℕ) (c : SourcingCase)
    → is_ok (transition s actor reason now c).0 ≡ true
    → (transition s actor reason now c).1.state ≡ s
unfolding transition moved
transition-state s actor reason now c h = elim (Bool-cases (is_state s c.state)) [
  | inl e ↦ let same = is_state_sound e in ground arith
  | inr e ↦ ground arith
]

place_order-IsPlaced :
    (ctx : Context) (actor : String) (c : SourcingCase) (d d' : Desk)
    → place_order ctx actor c d ≡ ok d'
    → IsPlaced c d.case_row d' × (d'.approvals ≡ d.approvals)
unfolding place_order
place_order-IsPlaced ctx actor c d d' h =
    elim (Bool-cases (is_state c.state CaseState.po_recommendation)) [
      | inr e ↦ rw (← ok-injective (rw e at h)) (inr (e, refl), refl)
      | inl e ↦
          let to = transition CaseState.order_placed actor "Purchase order released" ctx.now c in
          let (placed, e1, h1) = bind-ok (settle to) (λ x. save x d) d' (rw e at h) in
          let (went, became) = settle-ok to placed e1 in
          let (row, saved, kept) = save-IsSavedAs placed d d' h1 in
          (
            inl (
              is_state_sound e,
              row,
              ap (λ x. x.case_row) saved,
              kept.state
                  ∙ (ap (λ x. x.state) (sym became)
                      ∙ transition-state CaseState.order_placed actor "Purchase order released"
                          ctx.now c went),
            ),
            ap (λ x. x.approvals) saved,
          )
    ]

-- What stands behind an answer of `release_po`.
pub record IsOrderGate (ctx : Context) (p : Principal) (case_id : String) (body : ReleasePoRequest)
    (latest : Option Recommendation) (d : Desk) (r : Recommendation × Desk) : Type 0 where
  pub permitted : Any (Grants Permission.po_release) p.roles
  pub person : is_no_person ctx.service.unicode p.actor_id ≡ false
  pub recommendation : Recommendation
  pub was_latest : latest ≡ some recommendation
  pub signed : recommendation.approval_chain_satisfied ≡ true
  pub released : r.0 ≡ mark_released p.actor_id body.erp_po_number ctx.now recommendation
  pub recorded :
      IsRecorded ctx p
        (new_approval ctx p case_id ApprovalType.po_release
          (order_approval body)
          recommendation.recommendation_number)
        d.approvals
        r.1.approvals
  pub sourcing_case : SourcingCase
  pub was_row : d.case_row ≡ some sourcing_case
  pub placed : IsPlaced sourcing_case d.case_row r.1

-- If `release_po` answers, the caller has a role that may release orders and a name that is no
-- service's, the latest recommendation had its approval chain satisfied when it was made, the
-- approval in the caller's name is recorded, and the recommendation is RELEASED by the caller now.
-- A case in PO_RECOMMENDATION is then in ORDER_PLACED; a case in any other state stays as it was.
pub release_po-IsOrderGate :
    (ctx : Context) (p : Principal) (case_id : String) (body : ReleasePoRequest)
    (latest : Option Recommendation) (d : Desk) (r : Recommendation × Desk)
    → release_po ctx p case_id body latest d ≡ ok r
    → IsOrderGate ctx p case_id body latest d r
unfolding release_po
release_po-IsOrderGate ctx p case_id body latest d r h =
    let (_, e1, h1) = bind-ok (require p Permission.po_release) _ r h in
    let (rec, e2, h2) = bind-ok (found Error.validation latest) _ r h1 in
    let number = rec.recommendation_number in
    let (recorded, e3, h3) =
      bind-ok (record_approval ctx p case_id ApprovalType.po_release (order_approval body) number d)
        _ r h2 in
    let (own, signed, noted) =
      record_approval-IsRecorded ctx p case_id ApprovalType.po_release (order_approval body) number
        d recorded e3 in
    let (released, e4, h4) =
      bind-ok (release ctx p.actor_id body.erp_po_number recorded.1.approvals rec) _ r h3 in
    let (chain, person, marked) =
      release-ok ctx p.actor_id body.erp_po_number recorded.1.approvals rec released e4 in
    let (c, e5, h5) = bind-ok (found Error.not_found recorded.1.case_row) _ r h4 in
    let (after, e6, h6) = bind-ok (place_order ctx p.actor_id c recorded.1) _ r h5 in
    let (placed, kept) = place_order-IsPlaced ctx p.actor_id c recorded.1 after e6 in
    let same_row : recorded.1.case_row ≡ d.case_row = ap (λ x. x.case_row) noted in
    rw (← ok-injective h6) (record {
      permitted = require-Grants p Permission.po_release e1;
      person = person;
      recommendation = rec;
      was_latest = found-some Error.validation latest rec e2;
      signed = chain;
      released = marked;
      recorded = rw (← own) (record {
        human = signed.human;
        actor = signed.actor;
        roles = signed.roles;
        valid = signed.valid;
        recorded = kept ∙ signed.recorded;
      });
      sourcing_case = c;
      was_row = sym same_row ∙ found-some Error.not_found recorded.1.case_row c e5;
      placed = subst (λ x. IsPlaced c x after) same_row placed;
    })
