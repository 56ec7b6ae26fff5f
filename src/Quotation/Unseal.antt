-- ===== src/Quotation/Unseal.antt =====
-- `QuotationIngestionService.unseal_case` (procureguard/application/quotation_ingestion.py).
use procurement_automation.Prelude.{
  ℕ, ◌+◌, Bool, true, false, not, ◌&&◌, if◌then◌else◌, Option, some, List, [], ◌∷◌, String, str_eq,
}
use procurement_automation.Errors.{Error, Result, ok, err}
use procurement_automation.Errors.Chain.{◌>>=◌}
use procurement_automation.Vocabulary.Sourcing.{QuotationStatus}
use procurement_automation.Case.{SourcingCase, is_system}
use procurement_automation.Quotation.{Quotation}
use procurement_automation.Quotation.Seal.{apply_sealed_payload}
use procurement_automation.Quotation.Payload.{Service, unseal_payload}
use procurement_automation.Quotation.Ingest.{is_status}

-- The filter of `list_for_case`.
abbrev pub is_listed : Quotation → Bool
is_listed q =
    not (is_status q.status QuotationStatus.superseded)
    && not (is_status q.status QuotationStatus.withdrawn)

-- A listed row with an envelope to open.
abbrev pub is_closed : Quotation → Bool
is_closed q = is_listed q && (q.is_sealed && not (str_eq q.sealed_payload ""))

abbrev pub status_after : Option Bool → QuotationStatus → QuotationStatus
status_after (some true) status = QuotationStatus.technically_qualified
status_after _ status = status

abbrev pub opened_by : String → ℕ → Quotation → Quotation
opened_by actor now q = record q {
  is_sealed = false;
  unsealed_at = some now;
  unsealed_by = actor;
  status = status_after q.technically_qualified q.status;
}

-- One round of the loop.
unfoldable pub unseal_row : Service → String → ℕ → Quotation → Result Quotation
unseal_row s actor now q = do
  payload ← unseal_payload s q.sealed_payload q.case_id q.quotation_id
  ok (opened_by actor now (apply_sealed_payload payload q))

abbrev pub opened_and : Quotation → ℕ × List Quotation → Result (ℕ × List Quotation)
opened_and q (n, rows) = ok (n + 1, q ∷ rows)

abbrev pub kept_and : Quotation → ℕ × List Quotation → Result (ℕ × List Quotation)
kept_and q (n, rows) = ok (n, q ∷ rows)

-- The loop: how many rows it opened, and the table afterwards.
unfoldable pub unseal_rows : Service → String → ℕ → List Quotation → Result (ℕ × List Quotation)
unseal_rows s actor now [] = ok (0, [])
unseal_rows s actor now (q ∷ rest) =
    let others = unseal_rows s actor now rest in
    if is_closed q
    then unseal_row s actor now q >>= (λ opened. others >>= opened_and opened)
    else (others >>= kept_and q)

-- `unseal_case`, once the case is read.
unfoldable pub unseal_case :
    Service → SourcingCase → String → ℕ → List Quotation → Result (ℕ × List Quotation)
unfolding unseal_rows
unseal_case s c actor now rows =
    if not c.commercial_unlocked
    then err Error.validation
    else if is_system actor
    then err Error.validation
    else unseal_rows s actor now rows
