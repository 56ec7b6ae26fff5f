-- ===== src/Policy/Cases.antt =====
-- The rules that read a case: whether an action may be taken now.
use procurement_automation.Prelude.{
  ℕ, ◌+◌, ◌*◌, ltb, leb, ◌==◌, Bool, true, false, not, ◌&&◌, ◌||◌, if◌then◌else◌, Option, none,
  some, List, [], ◌∷◌, String, str_eq, any, length,
}
use procurement_automation.Prelude.Dict
use procurement_automation.Vocabulary.Case.{CaseState, ApprovalType}
use procurement_automation.Vocabulary.Access.{Permission}
use procurement_automation.Case.{SourcingCase, is_state, is_none}
use procurement_automation.Policy.{Reason, PolicyDecision, allow, deny, ProcurementPolicy}

-- `{s for s in supplier_ids if s}`
unfoldable pub unique : List String → List String
unique [] = []
unique (s ∷ rest) =
    let others = unique rest in
    if str_eq s "" || any (λ t. str_eq t s) others then others else s ∷ others

unfoldable pub may_issue_rfq : ProcurementPolicy → SourcingCase → List String → PolicyDecision
unfolding unique
may_issue_rfq p c supplier_ids =
    let n = length (unique supplier_ids) in
    if not (is_state c.state CaseState.ready_for_rfq)
    then deny (Reason.illegal_state c.state)
    else if n == 0
    then deny Reason.no_supplier
    else if ltb p.max_suppliers_per_rfq n
    then deny (Reason.too_many_suppliers n)
    else if ltb n p.min_suppliers_per_rfq && p.single_source_justification_required
    then record {
      allowed = true;
      reason = Reason.few_suppliers n;
      required_approvals = ApprovalType.single_source ∷ ApprovalType.rfq_release ∷ [];
      required_permissions = [];
    }
    else record {
      allowed = true;
      reason = Reason.competitive;
      required_approvals = ApprovalType.rfq_release ∷ [];
      required_permissions = Permission.rfq_release ∷ [];
    }

-- A `timedelta(hours=h)`, in microseconds.
abbrev pub hours : ℕ → ℕ
hours h = h * 3_600_000_000

abbrev pub too_soon : ProcurementPolicy → Option ℕ → ℕ → Bool
too_soon p none now = false
too_soon p (some last) now = ltb now (last + hours p.reminder_interval_hours)

abbrev pub earliest : ProcurementPolicy → Option ℕ → ℕ
earliest p none = 0
earliest p (some last) = last + hours p.reminder_interval_hours

-- `now` is the argument of that name, or the clock.
unfoldable pub may_send_reminder :
    ProcurementPolicy → SourcingCase → String → Option ℕ → ℕ → PolicyDecision
may_send_reminder p c supplier_id last_contact_at now =
    let sent = Dict.get_or c.reminder_count_by_supplier supplier_id 0 in
    if not (is_state c.state CaseState.waiting_for_quotes)
    then deny (Reason.illegal_state c.state)
    else if leb p.max_rfq_reminders sent
    then deny (Reason.limit_reached p.max_rfq_reminders)
    else if too_soon p last_contact_at now
    then deny (Reason.too_early (earliest p last_contact_at))
    else allow (Reason.numbered (sent + 1))

unfoldable pub may_transmit_email : ProcurementPolicy → Bool → PolicyDecision
may_transmit_email p is_external =
    if not is_external
    then allow Reason.internal_message
    else if not p.allow_automated_email_send
    then deny Reason.sending_disabled
    else allow Reason.sending_enabled

unfoldable pub may_open_technical_evaluation :
    ProcurementPolicy → SourcingCase → ℕ → Bool → PolicyDecision
may_open_technical_evaluation p c quotes_received deadline_passed =
    if not (is_state c.state CaseState.waiting_for_quotes)
    then deny (Reason.illegal_state c.state)
    else if quotes_received == 0
    then deny Reason.no_quotes
    else if ltb quotes_received p.min_quotes_to_evaluate && not deadline_passed
    then deny (Reason.waiting_for_quotes quotes_received)
    else if ltb quotes_received p.min_quotes_to_evaluate
    then record {
      allowed = true;
      reason = Reason.after_deadline quotes_received;
      required_approvals = ApprovalType.single_source ∷ [];
      required_permissions = [];
    }
    else allow (Reason.quotes_available quotes_received)

unfoldable pub may_open_negotiation : ProcurementPolicy → SourcingCase → PolicyDecision
may_open_negotiation p c =
    if not c.commercial_unlocked
    then deny Reason.not_unlocked
    else if not
        (is_state c.state CaseState.commercial_evaluation || is_state c.state CaseState.negotiation)
    then deny (Reason.illegal_state c.state)
    else if leb p.max_negotiation_rounds c.negotiation_round
    then deny (Reason.limit_reached p.max_negotiation_rounds)
    else record {
      allowed = true;
      reason = Reason.numbered (c.negotiation_round + 1);
      required_approvals = ApprovalType.negotiation_send ∷ [];
      required_permissions = Permission.negotiation_send ∷ [];
    }

unfoldable pub may_recommend_po : ProcurementPolicy → SourcingCase → Bool → PolicyDecision
may_recommend_po p c chain_satisfied =
    if not (is_state c.state CaseState.waiting_for_award_approval)
    then deny (Reason.illegal_state c.state)
    else if not chain_satisfied
    then deny Reason.chain_open
    else if is_none c.award_approved_at
    then deny Reason.no_award
    else allow Reason.awarded

unfoldable pub may_create_po_in_erp : ProcurementPolicy → PolicyDecision
may_create_po_in_erp p =
    if not p.allow_automated_po_creation then deny Reason.creation_disabled else record {
      allowed = true;
      reason = Reason.creation_enabled;
      required_approvals = ApprovalType.po_release ∷ [];
      required_permissions = Permission.po_release ∷ [];
    }
