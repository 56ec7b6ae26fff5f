-- ===== src/Vocabulary/Sourcing.antt =====
-- Statuses of requests, quotations, messages, vendors and orders (procureguard/domain/enums.py).
use procurement_automation.Prelude.{Bool, true, false}

pub data RfqStatus : Type 0 where
  draft pending_release_approval issued closed cancelled : RfqStatus

pub data RfqInvitationStatus : Type 0 where
  draft queued sent delivery_failed acknowledged quoted declined no_response disqualified :
      RfqInvitationStatus

pub data QuotationStatus : Type 0 where
  received parsing parsed needs_clarification quarantined sealed technically_qualified :
      QuotationStatus
  technically_disqualified commercially_evaluated superseded withdrawn expired : QuotationStatus

pub data Incoterm : Type 0 where
  exw fca fas fob cfr cif cpt cip dap dpu ddp : Incoterm

pub data CommunicationType : Type 0 where
  rfq_invitation rfq_reminder clarification_request clarification_response quotation_receipt :
      CommunicationType
  negotiation_round negotiation_response regret_letter award_letter po_dispatch : CommunicationType
  delivery_reminder overdue_escalation internal_notification unclassified : CommunicationType

pub data CommunicationDirection : Type 0 where
  outbound inbound : CommunicationDirection

pub data CommunicationStatus : Type 0 where
  draft pending_approval queued sent delivered bounced failed received suppressed :
      CommunicationStatus

pub data NegotiationRoundStatus : Type 0 where
  draft pending_approval sent responded no_response closed abandoned : NegotiationRoundStatus

pub data PoStatus : Type 0 where
  recommended pending_release released acknowledged partially_delivered delivered closed : PoStatus
  rejected cancelled : PoStatus

pub data MaterialStatus : Type 0 where
  active blocked_for_procurement obsolete phase_out engineering_hold not_extended_to_plant :
      MaterialStatus

pub data ProcurementType : Type 0 where
  external internal both : ProcurementType

pub data VendorStatus : Type 0 where
  active blocked pending_qualification deregistered one_time : VendorStatus

unfoldable pub QuotationStatus-discrete : Discrete QuotationStatus
QuotationStatus-discrete = hlevel

-- `MaterialStatus.blocks_procurement`
unfoldable pub blocks_procurement : MaterialStatus → Bool
blocks_procurement MaterialStatus.active = false
blocks_procurement _ = true
