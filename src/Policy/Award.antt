-- ===== src/Policy/Award.antt =====
-- Who must sign an award, and whether the recorded approvals suffice.
pub mod Signed
pub mod Order
use procurement_automation.Prelude.{
  ℕ, ltb, Bool, true, false, not, ◌&&◌, ◌||◌, if◌then◌else◌, Option, none, some, List, [], ◌∷◌,
  ◌++◌, String, str_eq, any, keep, take, length, is_empty, contains, map,
}
use procurement_automation.Decimal
use procurement_automation.Decimal.{Decimal}
use procurement_automation.Vocabulary.Case.{ApprovalType}
use procurement_automation.Vocabulary.Access.{Role, Role-discrete, role_of}
use procurement_automation.Approval
use procurement_automation.Approval.{Approval}
use procurement_automation.Policy.{ProcurementPolicy}
use procurement_automation.Policy.Gate.{is_type}

-- `ApprovalRequirement`, without the text of its reason.
pub record ApprovalRequirement : Type 0 where
  pub approval_type : ApprovalType
  pub eligible_roles : List Role
  pub minimum_approvers : ℕ

abbrev pub one_signature : ApprovalType → List Role → ApprovalRequirement
one_signature type roles = record {
  approval_type = type;
  eligible_roles = roles;
  minimum_approvers = 1;
}

abbrev pub standard_award : ApprovalRequirement
standard_award =
    one_signature ApprovalType.award
      (Role.category_manager ∷ Role.procurement_head ∷ Role.executive ∷ [])

abbrev pub dual_award : ApprovalRequirement
dual_award = one_signature ApprovalType.award (Role.procurement_head ∷ Role.finance ∷ [])

abbrev pub executive_award : ApprovalRequirement
executive_award = one_signature ApprovalType.award (Role.executive ∷ [])

abbrev pub single_source : ApprovalRequirement
single_source =
    one_signature ApprovalType.single_source (Role.procurement_head ∷ Role.category_manager ∷ [])

abbrev pub deviations : ApprovalRequirement
deviations = one_signature ApprovalType.deviation (Role.engineer ∷ Role.quality ∷ [])

abbrev pub added_if : Bool → ApprovalRequirement → List ApprovalRequirement
added_if true r = r ∷ []
added_if false r = []

-- `approval_chain_for_award`
unfoldable pub approval_chain_for_award :
    ProcurementPolicy → Decimal → Bool → Bool → List ApprovalRequirement
approval_chain_for_award p award_value_base is_single_source has_deviations =
    standard_award
    ∷ (added_if (Decimal.le p.dual_approval_threshold award_value_base) dual_award
        ++ (added_if (Decimal.le p.executive_approval_threshold award_value_base) executive_award
            ++ (added_if (is_single_source && p.single_source_justification_required) single_source
                ++ added_if has_deviations deviations)))

-- `_roles`: the names that are roles.
unfoldable pub roles_of : List String → List Role
roles_of [] = []
roles_of (raw ∷ rest) = elim (role_of raw) [ none ↦ roles_of rest | some r ↦ r ∷ roles_of rest ]

-- `any(role in requirement.eligible_roles for role in _roles(a))`, or no roles are asked for.
unfoldable pub is_eligible : ApprovalRequirement → Approval → Bool
unfolding roles_of Role-discrete
is_eligible r a =
    is_empty r.eligible_roles
    || any (λ role. contains Role-discrete r.eligible_roles role) (roles_of a.actor_roles)

-- `a.approval_id in consumed`
unfoldable pub is_consumed : List String → Approval → Bool
is_consumed consumed a = any (λ i. str_eq i a.approval_id) consumed

-- The condition of the comprehension `matches`.
unfoldable pub matches : ApprovalRequirement → List String → Approval → Bool
matches r consumed a =
    is_type a.approval_type r.approval_type && (not (is_consumed consumed a) && is_eligible r a)

abbrev pub ids : List Approval → List String
ids [] = []
ids (a ∷ rest) = a.approval_id ∷ ids rest

-- The loop over the chain: the requirements that are not met.
unfoldable pub missing_from :
    List ApprovalRequirement → List Approval → List String → List ApprovalRequirement
missing_from [] positive consumed = []
missing_from (r ∷ chain) positive consumed =
    let found = keep (matches r consumed) positive in
    let unmet = missing_from chain positive consumed in
    let met = missing_from chain positive (ids (take r.minimum_approvers found) ++ consumed) in
    if ltb (length found) r.minimum_approvers then r ∷ unmet else met

-- `award_chain_satisfied`: the unmet requirements; the chain is satisfied if there are none.
unfoldable pub award_chain_missing :
    List ApprovalRequirement → List Approval → List ApprovalRequirement
unfolding missing_from
award_chain_missing chain approvals = missing_from chain (keep Approval.is_positive approvals) []

unfoldable pub award_chain_satisfied : List ApprovalRequirement → List Approval → Bool
unfolding award_chain_missing
award_chain_satisfied chain approvals = is_empty (award_chain_missing chain approvals)
