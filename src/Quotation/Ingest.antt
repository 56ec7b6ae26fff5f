-- ===== src/Quotation/Ingest.antt =====
-- Taking an offer in (procureguard/application/quotation_ingestion.py and
-- infrastructure/db/repo_sourcing.py). The parsed offer, the ids and the nonce are arguments; the
-- table holds the rows of one case.
use procurement_automation.Prelude.{
  ℕ, zero, suc, ◌+◌, ◌==◌, ltb, Bool, true, false, not, ◌&&◌, if◌then◌else◌, Option, none, some,
  List, [], ◌∷◌, ◌++◌, map, String, str_eq, is_empty, any, eq_of,
}
use procurement_automation.Prelude.Text.{Unicode, Codes, codes, strip, upper, eq_codes}
use procurement_automation.Errors.{Result, ok}
use procurement_automation.Errors.Chain.{◌>>=◌}
use procurement_automation.Vocabulary.Sourcing.{QuotationStatus, QuotationStatus-discrete}
use procurement_automation.Decimal.{of_ℕ}
use procurement_automation.Crypto.{Bytes}
use procurement_automation.Case.{SourcingCase}
use procurement_automation.Quotation.{ParsedQuotation, QuotationLine, Quotation, to_dict}
use procurement_automation.Quotation.Payload.{Service, seal_payload}
use procurement_automation.Quotation.Seal.{
  commercial_of, write_technical_lines, write_all_lines, apply_commercial,
}

-- `status == s`
unfoldable pub is_status : QuotationStatus → QuotationStatus → Bool
unfolding QuotationStatus-discrete
is_status s t = eq_of QuotationStatus-discrete s t

abbrev pub better : Quotation → Option Quotation → Quotation
better q none = q
better q (some r) = if ltb q.revision r.revision then r else q

-- `find_by_vendor`: the highest revision of a vendor in a round; of equal ones the first.
unfoldable pub find_by_vendor : List Quotation → String → ℕ → Option Quotation
find_by_vendor [] vendor_id round = none
find_by_vendor (q ∷ rest) vendor_id round =
    let others = find_by_vendor rest vendor_id round in
    if str_eq q.vendor_id vendor_id && q.negotiation_round == round
    then some (better q others)
    else others

abbrev pub first_of : Option Quotation → Option Quotation → Option Quotation
first_of none other = other
first_of (some q) other = some q

-- The loop over the earlier rounds, from the latest one down.
unfoldable pub find_earlier : List Quotation → String → ℕ → Option Quotation
unfolding find_by_vendor
find_earlier rows vendor_id zero = none
find_earlier rows vendor_id (suc round) =
    first_of (find_by_vendor rows vendor_id round) (find_earlier rows vendor_id round)

-- What `_inherit_technical_result` compares of a line.
abbrev pub Part : Type 0
Part = ℕ × Codes

abbrev pub part_of : Unicode → QuotationLine → Part
part_of u line = (line.rfq_line_number, upper u (strip (codes line.offered_part_number)))

abbrev pub same_part : Part → Part → Bool
same_part (n, s) (m, t) = n == m && eq_codes s t

abbrev pub has_part : List Part → Part → Bool
has_part parts p = any (same_part p) parts

-- Every part of one list is in the other.
abbrev pub parts_within : List Part → List Part → Bool
parts_within [] others = true
parts_within (p ∷ parts) others = has_part others p && parts_within parts others

-- `offered_before and offered_now and offered_before != offered_now`, of sets
unfoldable pub parts_changed : List Part → List Part → Bool
unfolding upper strip eq_codes
parts_changed before now =
    not (is_empty before)
    && not (is_empty now)
    && not (parts_within before now && parts_within now before)

abbrev pub verdict_status : Bool → QuotationStatus
verdict_status true = QuotationStatus.technically_qualified
verdict_status false = QuotationStatus.technically_disqualified

abbrev pub inherit_from : Unicode → Quotation → Option Bool → Quotation → Quotation
inherit_from u source none q = q
inherit_from u source (some verdict) q =
    if parts_changed (map (part_of u) source.lines) (map (part_of u) q.lines) then q else record q {
      technically_qualified = some verdict;
      technical_score = source.technical_score;
      status = verdict_status verdict;
    }

abbrev pub inherit_option : Unicode → Option Quotation → Quotation → Quotation
inherit_option u none q = q
inherit_option u (some source) q = inherit_from u source source.technically_qualified q

-- `previous`, or else the vendor's quotation of an earlier round.
abbrev pub source_of : List Quotation → Option Quotation → String → ℕ → Option Quotation
source_of rows (some q) vendor_id round = some q
source_of rows none vendor_id round = find_earlier rows vendor_id round

-- `_inherit_technical_result`, without the reasons of a disqualification
unfoldable pub inherit_technical_result :
    Unicode → List Quotation → Option Quotation → ℕ → Quotation → Quotation
unfolding find_earlier
inherit_technical_result u rows previous round q =
    inherit_option u (source_of rows previous q.vendor_id round) q

-- What a call of `ingest_text` brings: `negotiation_round` may be missing.
pub record Arrival : Type 0 where
  pub quotation_id : String
  pub vendor_id : String
  pub negotiation_round : Option ℕ
  pub nonce : Bytes

abbrev pub first_status : Bool → Bool → QuotationStatus
first_status true should_seal = QuotationStatus.withdrawn
first_status false true = QuotationStatus.sealed
first_status false false = QuotationStatus.parsed

-- The row that `quotations.create` is given.
abbrev pub new_row : String → String → String → ℕ → QuotationStatus → ParsedQuotation → Quotation
new_row quotation_id case_id vendor_id round status p = record {
  quotation_id = quotation_id;
  quotation_number = p.quotation_number;
  case_id = case_id;
  vendor_id = vendor_id;
  revision = 1;
  negotiation_round = round;
  status = status;
  currency = "";
  incoterm = p.incoterm;
  incoterm_location = p.incoterm_location;
  payment_terms = "";
  validity_days = p.validity_days;
  lead_time_days = p.lead_time_days;
  freight_amount = of_ℕ 0;
  packing_amount = of_ℕ 0;
  tooling_amount = of_ℕ 0;
  other_charges = of_ℕ 0;
  discount_amount = of_ℕ 0;
  total_amount = of_ℕ 0;
  warranty_months = p.warranty_months;
  is_sealed = false;
  sealed_payload = "";
  sealed_key_id = "";
  unsealed_at = none;
  unsealed_by = "";
  parse_confidence = p.confidence;
  technical_score = none;
  technically_qualified = none;
  raw_extract = to_dict p;
  supersedes_quotation_id = "";
  lines = [];
}

-- The row with its content, sealed or in clear.
unfoldable pub write_offer : Service → Bytes → Bool → ParsedQuotation → Quotation → Result Quotation
write_offer s nonce true p q = do
  (ciphertext, key_reference) ← seal_payload s nonce (commercial_of p) q.case_id q.quotation_id
  ok (
      write_technical_lines p
        (record q { is_sealed = true; sealed_payload = ciphertext; sealed_key_id = key_reference }))
write_offer s nonce false p q = ok (write_all_lines p (apply_commercial p q))

-- `supersede`, on the old rows and on the new one.
unfoldable pub mark_superseded : String → List Quotation → List Quotation
mark_superseded quotation_id [] = []
mark_superseded quotation_id (q ∷ rest) =
    let others = mark_superseded quotation_id rest in
    if str_eq q.quotation_id quotation_id
    then record q { status = QuotationStatus.superseded } ∷ others
    else q ∷ others

abbrev pub supersede_old : Option Quotation → List Quotation → List Quotation
supersede_old none rows = rows
supersede_old (some old) rows = mark_superseded old.quotation_id rows

abbrev pub supersede_new : Option Quotation → Quotation → Quotation
supersede_new none q = q
supersede_new (some old) q = record q {
  supersedes_quotation_id = old.quotation_id;
  revision = old.revision + 1;
}

abbrev pub round_of : Option ℕ → SourcingCase → ℕ
round_of none c = c.negotiation_round
round_of (some n) c = n

abbrev pub should_seal : Service → SourcingCase → ParsedQuotation → Bool
should_seal s c p = s.sealed_bid_enabled && not c.commercial_unlocked && not p.declined

-- `ingest_text`: the table afterwards and the new row. Invitations, claims and the audit log are
-- not modelled.
unfoldable pub ingest_text :
    Service
    → SourcingCase
    → Arrival
    → ParsedQuotation
    → List Quotation
    → Result (List Quotation × Quotation)
unfolding write_offer find_by_vendor mark_superseded inherit_technical_result
ingest_text s c arrival p rows =
    let round = round_of arrival.negotiation_round c in
    let sealing = should_seal s c p in
    let previous = find_by_vendor rows arrival.vendor_id round in
    do
      written ← write_offer s arrival.nonce sealing p (
          new_row arrival.quotation_id c.case_id arrival.vendor_id round
            (first_status p.declined sealing) p)
      let row =
            inherit_technical_result s.unicode rows previous round
              (supersede_new previous written) in
          ok (supersede_old previous rows ++ row ∷ [], row)
