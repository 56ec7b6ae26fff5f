-- ===== src/Vocabulary/Technical.antt =====
-- Requirements and their outcome (procureguard/domain/enums.py).
use procurement_automation.Prelude.{Bool, true, false}

pub data RequirementKind : Type 0 where
  dimensional material performance electrical mechanical environmental standard_compliance :
      RequirementKind
  certification quality documentation packaging delivery commercial warranty other : RequirementKind

pub data RequirementObligation : Type 0 where
  mandatory desirable informational : RequirementObligation

pub data ComparisonOperator : Type 0 where
  eq gte lte range tolerance one_of contains boolean present : ComparisonOperator

pub data ComplianceStatus : Type 0 where
  compliant non_compliant deviation not_addressed unverifiable : ComplianceStatus

-- `ComplianceStatus.is_blocking`
unfoldable pub is_blocking : ComplianceStatus → Bool
is_blocking ComplianceStatus.non_compliant = true
is_blocking ComplianceStatus.not_addressed = true
is_blocking ComplianceStatus.unverifiable = true
is_blocking _ = false
