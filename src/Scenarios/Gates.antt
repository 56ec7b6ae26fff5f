-- ===== src/Scenarios/Gates.antt =====
-- An engineer opens the bids of a case, a category manager awards it, and two writers meet.
use procurement_automation.Prelude.{ℕ, ◌+◌, ◌≡◌, refl, true, false, some, [], ◌∷◌, String}
use procurement_automation.Prelude.Text.{strip, upper, eq_codes, is_one_of}
use procurement_automation.Errors.{Error, Result, ok, err}
use procurement_automation.Vocabulary.Case.{CaseState, ApprovalDecision}
use procurement_automation.Vocabulary.Access.{
  Permission-discrete, role_of, role_permissions, Role-discrete,
}
use procurement_automation.Decimal
use procurement_automation.Decimal.{of_ℕ}
use procurement_automation.Case.{
  SourcingCase, new_case, moved, can_transition, transition, unlock_commercial, is_state,
  record_award_approval,
}
use procurement_automation.Case.Graph.{can_move}
use procurement_automation.Approval
use procurement_automation.Policy.{default_policy}
use procurement_automation.Policy.Access.{has_permission, permissions_for_roles}
use procurement_automation.Policy.Gate.{is_type, may_unlock_commercial, apply_technical_approval}
use procurement_automation.Policy.Award.{
  award_chain_satisfied, approval_chain_for_award, missing_from, matches, is_consumed, is_eligible,
  roles_of,
}
use procurement_automation.Crypto.{xor_bytes, expand, derive, drop}
use procurement_automation.Crypto.Envelope
use procurement_automation.Quotation.{to_dict}
use procurement_automation.Quotation.Seal.{
  commercial_of, write_technical_lines, apply_sealed_payload,
}
use procurement_automation.Quotation.Payload.{seal_payload, unseal_payload}
use procurement_automation.Quotation.Ingest.{find_by_vendor, find_earlier, ingest_text, is_status}
use procurement_automation.Quotation.Unseal.{unseal_row, unseal_rows, unseal_case}
use procurement_automation.Api.{RankingRow, Desk, ApprovalRequest, Context}
use procurement_automation.Api.Principal.{Principal, require, require_human, is_human}
use procurement_automation.Api.Store.{save, save_row, last_200, record_approval}
use procurement_automation.Api.Technical.{Outcome, approve_technical, unlock_and_unseal}
use procurement_automation.Api.Award.{approve_award, award_to, winner_of, chain_for}
use procurement_automation.Api.Gates.{IsTechnicalGate, approve_technical-IsTechnicalGate}
use procurement_automation.Api.Signed.{IsAwardGate, approve_award-IsAwardGate}
use procurement_automation.Api.Lock.{second_save, written, second_save-cases}
use procurement_automation.Scenarios.Sealed.{service, sealed_row, case_at}

abbrev pub context : Context
context = record {
  service = service;
  policy = default_policy;
  approval_id = "AP1";
  signature = "";
  now = 9;
}

abbrev pub person : String → String → Principal
person actor role = record {
  actor_id = actor;
  email = "";
  display_name = actor;
  roles = role ∷ [];
  tenant_id = "T1";
  auth_method = "dev";
}

abbrev pub request : ApprovalRequest
request = record {
  reason = "meets the requirements";
  decision = ApprovalDecision.approved;
  subject_ref = "";
  conditions = [];
}

abbrev ranked : String → ℕ → RankingRow
ranked vendor total = record {
  vendor_id = vendor;
  technically_qualified = true;
  total_base = of_ℕ total;
}

abbrev pub desk : CaseState → Desk
desk state = record {
  case_row = some (record (case_at false) { state = state });
  approvals = [];
  ranking = ranked "V1" 94 ∷ ranked "V2" 99 ∷ ranked "V3" 120 ∷ [];
  accepted_deviations = [];
  quotations = sealed_row ∷ [];
}

abbrev answer_of : Result (Outcome × Desk) → Outcome × Desk
answer_of (ok r) = r
answer_of (err _) = (Outcome.rejected, desk CaseState.received)

abbrev unsealed : Outcome × Desk
unsealed = answer_of (
    approve_technical context (person "anna" "ENGINEER") "C1" request
      (desk CaseState.waiting_for_technical_approval))

unseal_run :
    approve_technical context
      (person "anna" "ENGINEER")
      "C1"
      request
      (desk CaseState.waiting_for_technical_approval)
    ≡ ok unsealed
unfolding approve_technical require has_permission permissions_for_roles role_of role_permissions
    record_approval require_human is_human Approval.validate strip new_case unlock_and_unseal
    apply_technical_approval may_unlock_commercial is_type Approval.is_positive transition
    unlock_commercial can_transition can_move is_state moved save save_row last_200 ingest_text
    commercial_of seal_payload Envelope.encrypt derive expand xor_bytes find_by_vendor find_earlier
    write_technical_lines to_dict unseal_case unseal_rows unseal_row unseal_payload Envelope.decrypt
    drop eq_codes apply_sealed_payload is_status upper is_one_of Permission-discrete
unseal_run = refl

approve_technical-IsTechnicalGate_example :
    IsTechnicalGate context
      (person "anna" "ENGINEER")
      "C1"
      request
      (desk CaseState.waiting_for_technical_approval)
      unsealed
approve_technical-IsTechnicalGate_example =
    approve_technical-IsTechnicalGate context (person "anna" "ENGINEER") "C1" request
      (desk CaseState.waiting_for_technical_approval) unsealed unseal_run

abbrev awarded : Outcome × Desk
awarded = answer_of (
    approve_award context (person "carl" "CATEGORY_MANAGER") "C1" request "V1"
      (desk CaseState.waiting_for_award_approval))

award_run :
    approve_award context
      (person "carl" "CATEGORY_MANAGER")
      "C1"
      request
      "V1"
      (desk CaseState.waiting_for_award_approval)
    ≡ ok awarded
unfolding approve_award require has_permission permissions_for_roles role_of role_permissions
    record_approval require_human is_human Approval.validate strip new_case award_to is_type
    Approval.is_positive record_award_approval is_state save save_row last_200 upper is_one_of
    Permission-discrete eq_codes winner_of chain_for award_chain_satisfied approval_chain_for_award
    Decimal.le missing_from matches is_consumed is_eligible roles_of Role-discrete
award_run = refl

award_approved : awarded.0 ≡ Outcome.approved
unfolding approve_award require has_permission permissions_for_roles role_of role_permissions
    record_approval require_human is_human Approval.validate strip new_case award_to is_type
    Approval.is_positive record_award_approval is_state save save_row last_200 upper is_one_of
    Permission-discrete eq_codes winner_of chain_for award_chain_satisfied approval_chain_for_award
    Decimal.le missing_from matches is_consumed is_eligible roles_of Role-discrete
award_approved = refl

approve_award-IsAwardGate_example :
    IsAwardGate context
      (person "carl" "CATEGORY_MANAGER")
      "C1"
      request
      "V1"
      (desk CaseState.waiting_for_award_approval)
      awarded
approve_award-IsAwardGate_example =
    approve_award-IsAwardGate context (person "carl" "CATEGORY_MANAGER") "C1" request "V1"
      (desk CaseState.waiting_for_award_approval) awarded award_run

abbrev loaded : SourcingCase
loaded = case_at false

second_save-cases_example :
    (second_save loaded loaded loaded ≡ err Error.conflict)
    × (second_save loaded
          (moved CaseState.validating_pr "anna" "" 5 loaded)
          (moved CaseState.cancelled "carl" "not needed" 6 loaded)
        ≡ ok
            (written (moved CaseState.cancelled "carl" "not needed" 6 loaded) (loaded.version + 1)))
second_save-cases_example =
    second_save-cases loaded loaded loaded CaseState.validating_pr CaseState.cancelled "anna" "carl"
      "" "not needed" 5 6 refl refl
