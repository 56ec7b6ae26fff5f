-- ===== src/Api/Award.antt =====
-- `approve_award` (procureguard/api/routes/approvals.py): the award, by as many people as it needs.
use procurement_automation.Prelude.{
  ltb, Bool, false, not, ◌||◌, if◌then◌else◌, Option, none, some, List, [], ◌∷◌, String, str_eq,
  keep, length,
}
use procurement_automation.Decimal.{Decimal}
use procurement_automation.Errors.{Error, Result, ok}
use procurement_automation.Errors.Chain.{◌>>=◌, ◌>>◌, found}
use procurement_automation.Vocabulary.Access.{Permission}
use procurement_automation.Vocabulary.Case.{ApprovalType}
use procurement_automation.Approval
use procurement_automation.Approval.{Approval}
use procurement_automation.Case.{SourcingCase, record_award_approval}
use procurement_automation.Policy.{ProcurementPolicy}
use procurement_automation.Policy.Award.{
  ApprovalRequirement, approval_chain_for_award, award_chain_missing, award_chain_satisfied,
}
use procurement_automation.Api.{RankingRow, Desk, ApprovalRequest, Context}
use procurement_automation.Api.Principal.{Principal, require}
use procurement_automation.Api.Store.{save, record_approval}
use procurement_automation.Api.Technical.{Outcome, settle}

-- `winner`: the first row of the supplier, if there is one, whether it is qualified or not.
unfoldable pub winner_of : List RankingRow → String → Option RankingRow
winner_of [] supplier_id = none
winner_of (r ∷ rest) supplier_id =
    let later = winner_of rest supplier_id in
    if str_eq r.vendor_id supplier_id then some r else later

abbrev pub value_or : Option RankingRow → Decimal → Decimal
value_or none estimate = estimate
value_or (some r) estimate = r.total_base

-- `any(flags)`
abbrev pub any_true : List Bool → Bool
any_true [] = false
any_true (b ∷ rest) = b || any_true rest

abbrev pub is_qualified_row : RankingRow → Bool
is_qualified_row r = r.technically_qualified

-- The chain for a winner and a case.
unfoldable pub chain_for :
    ProcurementPolicy → SourcingCase → Desk → Option RankingRow → List ApprovalRequirement
chain_for policy c d winner =
    approval_chain_for_award policy (value_or winner c.estimated_value_base)
      (ltb (length (keep is_qualified_row d.ranking)) policy.min_suppliers_per_rfq)
      (any_true d.accepted_deviations)

unfoldable pub award_to :
    Context → SourcingCase → Approval → String → Desk → Result (Outcome × Desk)
award_to ctx c a supplier_id d = do
  awarded ← settle (record_award_approval a.actor_id supplier_id ctx.now c)
  saved ← save awarded d
  ok (Outcome.approved, saved)

abbrev pub decide_award :
    Context → SourcingCase → String → Approval × Desk → Result (Outcome × Desk)
decide_award ctx c supplier_id (a, d) =
    let chain = chain_for ctx.policy c d (winner_of d.ranking supplier_id) in
    if not (Approval.is_positive a)
    then ok (Outcome.rejected, d)
    else if not (award_chain_satisfied chain d.approvals)
    then ok (Outcome.pending_further_approval (award_chain_missing chain d.approvals), d)
    else award_to ctx c a supplier_id d

unfoldable pub approve_award :
    Context → Principal → String → ApprovalRequest → String → Desk → Result (Outcome × Desk)
unfolding award_to
approve_award ctx p case_id body supplier_id d = do
  require p Permission.award_approve
  c ← found Error.not_found d.case_row
  recorded ← record_approval ctx p case_id ApprovalType.award body supplier_id d
  decide_award ctx c supplier_id recorded
