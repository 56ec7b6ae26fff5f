-- ===== src/Api.antt =====
-- The human gates of the API (procureguard/api/routes/approvals.py, api/dependencies.py,
-- security/auth.py): the rows that a route reads and writes, and the caller.
pub mod Principal
pub mod Store
pub mod Technical
pub mod Award
pub mod Recorded
pub mod Gates
pub mod Signed
pub mod Lock
pub mod Release
pub mod Signalled
pub mod Order
pub mod Composed
pub mod Released
use procurement_automation.Prelude.{ℕ, Bool, Option, List, String}
use procurement_automation.Prelude.Dict.{Dict}
use procurement_automation.Vocabulary.Case.{ApprovalDecision}
use procurement_automation.Decimal.{Decimal}
use procurement_automation.Case.{SourcingCase}
use procurement_automation.Approval.{Approval}
use procurement_automation.Policy.{ProcurementPolicy}
use procurement_automation.Quotation.{Quotation}
use procurement_automation.Quotation.Payload.{Service}

-- A row of `bid_rankings`: what the routes read of it.
pub record RankingRow : Type 0 where
  pub vendor_id : String
  pub technically_qualified : Bool
  pub total_base : Decimal

-- The rows of one case, of the caller's tenant: the case, the approvals in the order of their
-- creation, the latest ranking run in the order of its positions, whether each assessment has an
-- accepted deviation, and the quotations.
pub record Desk : Type 0 where
  pub case_row : Option SourcingCase
  pub approvals : List Approval
  pub ranking : List RankingRow
  pub accepted_deviations : List Bool
  pub quotations : List Quotation

-- `ApprovalRequest`, without its free payload.
pub record ApprovalRequest : Type 0 where
  pub reason : String
  pub decision : ApprovalDecision
  pub subject_ref : String
  pub conditions : List String

-- The context of a request: the service, the policy, the id and the signature that the new approval
-- gets, and the clock.
pub record Context : Type 0 where
  pub service : Service
  pub policy : ProcurementPolicy
  pub approval_id : String
  pub signature : String
  pub now : ℕ
