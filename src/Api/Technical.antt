-- ===== src/Api/Technical.antt =====
-- `approve_technical` (procureguard/api/routes/approvals.py): approving the evaluation unseals.
-- A call that raises changes nothing, since the request's transaction is rolled back.
use procurement_automation.Prelude.{ℕ, not, if◌then◌else◌, List, String}
use procurement_automation.Errors.{Error, Result, ok, err}
use procurement_automation.Errors.Chain.{◌>>=◌, ◌>>◌, found}
use procurement_automation.Vocabulary.Access.{Permission}
use procurement_automation.Vocabulary.Case.{ApprovalType}
use procurement_automation.Approval
use procurement_automation.Approval.{Approval}
use procurement_automation.Case.{SourcingCase}
use procurement_automation.Policy.Gate.{apply_technical_approval}
use procurement_automation.Policy.Award.{ApprovalRequirement}
use procurement_automation.Quotation.{Quotation}
use procurement_automation.Quotation.Unseal.{unseal_case}
use procurement_automation.Api.{Desk, ApprovalRequest, Context}
use procurement_automation.Api.Principal.{Principal, require}
use procurement_automation.Api.Store.{save, record_approval}

-- The `status` of an `ApprovalResponse`; one that is pending names what is missing.
pub data Outcome : Type 0 where
  rejected approved : Outcome
  pending_further_approval : List ApprovalRequirement → Outcome

-- What a method of the case gives, if it does not raise.
abbrev pub settle : Result (Unit {0}) × SourcingCase → Result SourcingCase
settle (ok _, c) = ok c
settle (err e, c) = err e

abbrev pub with_quotations : Desk → ℕ × List Quotation → Desk
with_quotations d (n, rows) = record d { quotations = rows }

-- After the approval is recorded and positive.
unfoldable pub unlock_and_unseal :
    Context → SourcingCase → Approval → Desk → Result (Outcome × Desk)
unlock_and_unseal ctx c a d = do
  unlocked ← settle (apply_technical_approval a ctx.now c)
  saved ← save unlocked d
  row ← found Error.not_found saved.case_row
  opened ← unseal_case ctx.service row a.actor_id ctx.now saved.quotations
  ok (Outcome.approved, with_quotations saved opened)

abbrev pub decide_technical : Context → SourcingCase → Approval × Desk → Result (Outcome × Desk)
decide_technical ctx c (a, d) =
    if not (Approval.is_positive a) then ok (Outcome.rejected, d) else unlock_and_unseal ctx c a d

unfoldable pub approve_technical :
    Context → Principal → String → ApprovalRequest → Desk → Result (Outcome × Desk)
unfolding unlock_and_unseal
approve_technical ctx p case_id body d = do
  require p Permission.technical_approve
  c ← found Error.not_found d.case_row
  recorded ← record_approval ctx p case_id ApprovalType.technical body "" d
  decide_technical ctx c recorded
