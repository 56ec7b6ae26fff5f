-- ===== src/Api/Recorded.antt =====
-- What a recorded approval and a saved case keep.
use procurement_automation.Prelude.{
  ◌≡◌, refl, sym, ap, inl, inr, true, Option, none, some, List, [], ◌∷◌, ◌++◌, String, Any,
  Bool-cases, ltb,
}
use procurement_automation.Errors.{Error, Result, ok, err}
use procurement_automation.Errors.Chain.{found, bind-ok, ok-injective, Result-cases}
use procurement_automation.Vocabulary.Access.{Permission}
use procurement_automation.Vocabulary.Case.{ApprovalType}
use procurement_automation.Approval
use procurement_automation.Approval.{Approval}
use procurement_automation.Case.{SourcingCase}
use procurement_automation.Policy.Access.{has_permission, require_permission}
use procurement_automation.Policy.Access.Duties.{Grants, require_permission_iff}
use procurement_automation.Policy.Agreement.{is_ok}
use procurement_automation.Api.{Desk, ApprovalRequest, Context}
use procurement_automation.Api.Principal.{Principal, is_human, require, require_human}
use procurement_automation.Api.Store.{save, save_row, new_approval, record_approval}
use procurement_automation.Api.Technical.{settle}

pub require-Grants : (p : Principal) (q : Permission) → require p q ≡ ok tt → Any (Grants q) p.roles
unfolding require require_permission
require-Grants p q h =
    (require_permission_iff p.roles q).0.0
      (elim (Bool-cases (has_permission p.roles q)) [ inl e ↦ rw e refl | inr e ↦ cc (rw e at h) ])

-- What stands behind a recorded approval.
pub record IsRecorded (ctx : Context) (p : Principal) (a : Approval) (before after : List Approval)
    : Type 0 where
  pub human : is_human ctx.service.unicode p ≡ true
  pub actor : a.actor_id ≡ p.actor_id
  pub roles : a.actor_roles ≡ p.roles
  pub valid : Approval.validate a ≡ ok tt
  pub recorded : after ≡ before ++ a ∷ []

pub record_approval-IsRecorded :
    (ctx : Context) (p : Principal) (case_id : String) (type : ApprovalType)
    (body : ApprovalRequest) (subject_ref : String) (d : Desk) (r : Approval × Desk)
    → record_approval ctx p case_id type body subject_ref d ≡ ok r
    → (r.0 ≡ new_approval ctx p case_id type body subject_ref)
      × IsRecorded ctx p r.0 d.approvals r.1.approvals
      × (r.1 ≡ record d { approvals = d.approvals ++ r.0 ∷ [] })
unfolding record_approval require_human
record_approval-IsRecorded ctx p case_id type body subject_ref d r h =
    elim (Bool-cases (is_human ctx.service.unicode p)) [
      | inr e ↦ cc (rw e at h)
      | inl e ↦
          let b = new_approval ctx p case_id type body subject_ref in
          elim (Result-cases (Approval.validate b)) [
            | inr (x, f) ↦ cc (rw (e, f) at h)
            | inl (x, f) ↦ rw (← ok-injective (rw (e, f) at h)) (
              refl,
              record { human = e; actor = refl; roles = refl; valid = f; recorded = refl },
              refl,
            )
          ]
    ]

-- A saved row differs from the case in its version and in how much history it keeps.
pub record IsSavedAs (c row : SourcingCase) : Type 0 where
  pub state : row.state ≡ c.state
  pub unlocked : row.commercial_unlocked ≡ c.commercial_unlocked
  pub awarded : row.awarded_supplier_id ≡ c.awarded_supplier_id
  pub award_time : row.award_approved_at ≡ c.award_approved_at

save_row-IsSavedAs :
    (c : SourcingCase) (stored : Option SourcingCase) (row : SourcingCase)
    → save_row c stored ≡ ok row
    → IsSavedAs c row
unfolding save_row
save_row-IsSavedAs c none row h =
    rw (← ok-injective h)
      (record { state = refl; unlocked = refl; awarded = refl; award_time = refl })
save_row-IsSavedAs c (some old) row h = elim (Bool-cases (ltb c.version old.version)) [
  | inl e ↦ cc (rw e at h)
  | inr e ↦
      rw (← ok-injective (rw e at h))
        (record { state = refl; unlocked = refl; awarded = refl; award_time = refl })
]

pub save-IsSavedAs :
    (c : SourcingCase) (d d' : Desk)
    → save c d ≡ ok d'
    → (row : SourcingCase) × (d' ≡ record d { case_row = some row }) × IsSavedAs c row
unfolding save
save-IsSavedAs c d d' h =
    let (row, e, f) =
      bind-ok (save_row c d.case_row) (λ row. ok (record d { case_row = some row })) d' h in
    (row, sym (ok-injective f), save_row-IsSavedAs c d.case_row row e)

pub found-some : {A : Type 0} (e : Error) (o : Option A) (a : A) → found e o ≡ ok a → o ≡ some a
found-some e none a h = cc
found-some e (some b) a h = ap some (ok-injective h)

pub settle-ok :
    (r : Result (Unit {0}) × SourcingCase) (c : SourcingCase)
    → settle r ≡ ok c
    → (is_ok r.0 ≡ true) × (r.1 ≡ c)
settle-ok (ok _, c) c' h = (refl, ok-injective h)
settle-ok (err e, c) c' h = cc

pub some_case : {a b : SourcingCase} → some a ≡ some b → a ≡ b
some_case h = cc
