-- ===== src/Vocabulary/Evidence.antt =====
-- Provenance of documents and claims (procureguard/domain/enums.py).
use procurement_automation.Prelude.{Bool, true, false}

pub data TrustState : Type 0 where
  authoritative verified unverified quarantined superseded conflicted : TrustState

pub data DocumentAuthority : Type 0 where
  erp_master engineering quality procurement supplier third_party_cert unknown : DocumentAuthority

pub data DocumentType : Type 0 where
  purchase_requisition technical_specification engineering_drawing datasheet : DocumentType
  bill_of_materials quality_plan rfq quotation technical_bid commercial_bid certificate :
      DocumentType
  test_report negotiation_letter purchase_order correspondence other : DocumentType

pub data DecisionType : Type 0 where
  pr_validation material_resolution historical_benchmark requirement_extraction : DecisionType
  supplier_shortlist rfq_package technical_comparison commercial_normalization bid_ranking :
      DecisionType
  negotiation_strategy po_recommendation info_record_proposal : DecisionType

pub data EvidenceRole : Type 0 where
  supports contradicts context baseline source_of_truth : EvidenceRole

pub data SecuritySeverity : Type 0 where
  info low medium high critical : SecuritySeverity

pub data RiskLevel : Type 0 where
  low medium high critical : RiskLevel

-- `DocumentAuthority.is_supplier_controlled`
unfoldable pub is_supplier_controlled : DocumentAuthority → Bool
is_supplier_controlled DocumentAuthority.supplier = true
is_supplier_controlled DocumentAuthority.unknown = true
is_supplier_controlled _ = false
