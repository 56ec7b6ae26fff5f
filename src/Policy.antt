-- ===== src/Policy.antt =====
-- The deterministic procurement policy (procureguard/domain/policies.py). A decision's reason is
-- data: which rule spoke, with the numbers that its text shows.
pub mod Access
pub mod Cases
pub mod Gate
pub mod Award
pub mod Qualify
pub mod Price
pub mod Agreement
pub mod Technical
use procurement_automation.Prelude.{ℕ, Bool, true, false, List, [], String}
use procurement_automation.Errors.{Error, Result, ok, err}
use procurement_automation.Vocabulary.Case.{CaseState, ApprovalType}
use procurement_automation.Vocabulary.Access.{Permission}
use procurement_automation.Decimal.{Decimal, of_ℕ}

-- Which rule allowed or denied.
pub data Reason : Type 0 where
  illegal_state : CaseState → Reason
  no_supplier competitive : Reason
  too_many_suppliers few_suppliers : ℕ → Reason
  limit_reached : ℕ → Reason
  too_early : ℕ → Reason
  numbered : ℕ → Reason
  internal_message sending_disabled sending_enabled : Reason
  no_quotes : Reason
  waiting_for_quotes after_deadline quotes_available : ℕ → Reason
  not_technical not_granted not_awaiting recorded : Reason
  not_unlocked : Reason
  chain_open no_award awarded : Reason
  creation_disabled creation_enabled : Reason

-- `PolicyDecision`
pub record PolicyDecision : Type 0 where
  pub allowed : Bool
  pub reason : Reason
  pub required_approvals : List ApprovalType
  pub required_permissions : List Permission

-- `PolicyDecision.allow` and `PolicyDecision.deny`
abbrev pub allow : Reason → PolicyDecision
allow why = record {
  allowed = true;
  reason = why;
  required_approvals = [];
  required_permissions = [];
}

abbrev pub deny : Reason → PolicyDecision
deny why = record {
  allowed = false;
  reason = why;
  required_approvals = [];
  required_permissions = [];
}

-- `raise_if_denied`
abbrev pub raise_if_denied : PolicyDecision → Result (Unit {0})
raise_if_denied d = elim d.allowed [ true ↦ ok tt | false ↦ err Error.policy_violation ]

-- `ProcurementPolicy`
pub record ProcurementPolicy : Type 0 where
  pub max_rfq_reminders : ℕ
  pub reminder_interval_hours : ℕ
  pub min_suppliers_per_rfq : ℕ
  pub max_suppliers_per_rfq : ℕ
  pub min_quotes_to_evaluate : ℕ
  pub max_negotiation_rounds : ℕ
  pub dual_approval_threshold : Decimal
  pub executive_approval_threshold : Decimal
  pub single_source_justification_required : Bool
  pub allow_automated_email_send : Bool
  pub allow_automated_po_creation : Bool
  pub price_increase_alert_pct : Decimal
  pub quote_window_days : ℕ

-- The defaults of the class.
abbrev pub default_policy : ProcurementPolicy
default_policy = record {
  max_rfq_reminders = 2;
  reminder_interval_hours = 72;
  min_suppliers_per_rfq = 3;
  max_suppliers_per_rfq = 6;
  min_quotes_to_evaluate = 2;
  max_negotiation_rounds = 3;
  dual_approval_threshold = of_ℕ 50_000;
  executive_approval_threshold = of_ℕ 250_000;
  single_source_justification_required = true;
  allow_automated_email_send = false;
  allow_automated_po_creation = false;
  price_increase_alert_pct = of_ℕ 10;
  quote_window_days = 10;
}
