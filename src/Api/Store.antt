-- ===== src/Api/Store.antt =====
-- Saving a case and recording an approval (procureguard/infrastructure/db/repo_core.py, `_record`
-- of api/routes/approvals.py).
use procurement_automation.Prelude.{
  ℕ, zero, suc, ◌+◌, ◌-◌, ltb, if◌then◌else◌, Option, none, some, List, [], ◌∷◌, ◌++◌, String,
  str_eq, length,
}
use procurement_automation.Errors.{Error, Result, ok, err}
use procurement_automation.Errors.Chain.{◌>>=◌, ◌>>◌}
use procurement_automation.Vocabulary.Case.{ApprovalType}
use procurement_automation.Approval
use procurement_automation.Approval.{Approval}
use procurement_automation.Case.{SourcingCase, HistoryEntry}
use procurement_automation.Api.{Desk, ApprovalRequest, Context}
use procurement_automation.Api.Principal.{Principal, require_human}

-- `history[n:]`
abbrev pub drop_history : ℕ → List HistoryEntry → List HistoryEntry
drop_history zero h = h
drop_history (suc n) [] = []
drop_history (suc n) (_ ∷ h) = drop_history n h

-- `list(history)[-200:]`
unfoldable pub last_200 : List HistoryEntry → List HistoryEntry
last_200 h = drop_history (length h - 200) h

abbrev pub max : ℕ → ℕ → ℕ
max a b = if ltb a b then b else a

-- The row that `SqlSourcingCaseRepository.save` writes, and its optimistic lock.
unfoldable pub save_row : SourcingCase → Option SourcingCase → Result SourcingCase
unfolding last_200
save_row c none = ok (record c { state_history = last_200 c.state_history })
save_row c (some row) =
    if ltb c.version row.version
    then err Error.conflict
    else ok (record c {
      version = max c.version (row.version + 1);
      state_history = last_200 c.state_history;
    })

-- `repos.cases.save`
unfoldable pub save : SourcingCase → Desk → Result Desk
unfolding save_row
save c d = do row ← save_row c d.case_row; ok (record d { case_row = some row })

abbrev pub or_ref : String → String → String
or_ref s default = if str_eq s "" then default else s

abbrev pub new_approval :
    Context → Principal → String → ApprovalType → ApprovalRequest → String → Approval
new_approval ctx p case_id type body subject_ref = record {
  approval_id = ctx.approval_id;
  case_id = case_id;
  approval_type = type;
  decision = body.decision;
  actor_id = p.actor_id;
  reason = body.reason;
  actor_roles = p.roles;
  subject_ref = or_ref subject_ref body.subject_ref;
  conditions = body.conditions;
  created_at = ctx.now;
  signature = ctx.signature;
}

-- `_record`: the new approval is the latest one. The audit log is not modelled.
unfoldable pub record_approval :
    Context
    → Principal
    → String
    → ApprovalType
    → ApprovalRequest
    → String
    → Desk
    → Result (Approval × Desk)
record_approval ctx p case_id type body subject_ref d =
    let a = new_approval ctx p case_id type body subject_ref in
    do
      require_human ctx.service.unicode p
      Approval.validate a
      ok (a, record d { approvals = d.approvals ++ a ∷ [] })
