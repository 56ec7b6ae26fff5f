-- ===== src/Scenarios/Sealed.antt =====
-- An offer of one line that is sealed and opened, and a vendor that declines a second round.
use procurement_automation.Prelude.{
  ℕ, ◌≤◌, ◌≡◌, refl, Bool, true, false, if◌then◌else◌, Option, none, some, List, [], ◌∷◌, ◌++◌,
  String, length, arith,
}
use procurement_automation.Prelude.Text.{codes, eq_codes}
use procurement_automation.Errors.{Result, ok, err}
use procurement_automation.Vocabulary.Sourcing.{QuotationStatus}
use procurement_automation.Decimal
use procurement_automation.Decimal.{Decimal, of_ℕ}
use procurement_automation.Crypto.{Bytes, xor_bytes, expand, derive, drop}
use procurement_automation.Crypto.Envelope
use procurement_automation.Case.{SourcingCase, new_case}
use procurement_automation.Quotation.{
  ParsedQuotationLine, ParsedQuotation, Quotation, or_decimal, to_dict,
}
use procurement_automation.Quotation.Seal.{
  Commercial, commercial_of, write_technical_lines, write_all_lines, apply_commercial,
  apply_sealed_payload,
}
use procurement_automation.Quotation.RoundTrip.{IsPriced}
use procurement_automation.Quotation.Payload.{Service, seal_payload, unseal_payload}
use procurement_automation.Quotation.Ingest.{
  Arrival, new_row, write_offer, find_by_vendor, find_earlier, ingest_text, is_status,
  parts_changed,
}
use procurement_automation.Quotation.Unseal.{
  opened_by, unseal_row, unseal_rows, unseal_case, is_listed,
}
use procurement_automation.Quotation.Opened.{IsFaithful, in_clear, sealed_offer_opens}
use procurement_automation.Quotation.Guard.{IsUnsealing, unseal_case-IsUnsealing}
use procurement_automation.Quotation.Verdict.{
  IsInherited, ingest_text-IsInherited, declined-qualified,
}
use procurement_automation.Scenarios.{ascii}
use procurement_automation.Scenarios.Envelopes.{toy, toy-AreLawful, local_key, eight}

abbrev pump : ParsedQuotationLine
pump = record {
  rfq_line_number = 10;
  material_code = "M1";
  offered_description = "pump";
  offered_part_number = "P-1";
  quantity = some (of_ℕ 2);
  uom = "EA";
  unit_price = some (of_ℕ 45);
  price_per_quantity = of_ℕ 1;
  currency = "EUR";
  lead_time_days = 30;
  minimum_order_quantity = none;
  line_total = some (of_ℕ 90);
  notes = "";
  is_alternative = false;
  quantity_breaks = [];
}

abbrev answer : Bool → List ParsedQuotationLine → ParsedQuotation
answer declined lines = record {
  quotation_number = "Q1";
  currency = "EUR";
  incoterm = "DAP";
  incoterm_location = "";
  payment_terms = "NET 30";
  validity_days = 30;
  lead_time_days = 30;
  freight_amount = of_ℕ 5;
  packing_amount = of_ℕ 0;
  tooling_amount = of_ℕ 0;
  other_charges = of_ℕ 0;
  discount_amount = of_ℕ 1;
  total_amount = some (of_ℕ 94);
  warranty_months = 12;
  declined = declined;
  lines = lines;
  confidence = of_ℕ 1;
  source_format = "freetext";
}

abbrev offer : ParsedQuotation
offer = answer false (pump ∷ [])

abbrev offer_payload : Commercial
offer_payload = record {
  currency = "EUR";
  total_amount = some (of_ℕ 94);
  freight_amount = of_ℕ 5;
  packing_amount = of_ℕ 0;
  tooling_amount = of_ℕ 0;
  other_charges = of_ℕ 0;
  discount_amount = of_ℕ 1;
  payment_terms = "NET 30";
  lines =
      record {
        rfq_line_number = 10;
        quantity = some (of_ℕ 2);
        unit_price = some (of_ℕ 45);
        price_per_quantity = of_ℕ 1;
        currency = "EUR";
        line_total = some (of_ℕ 90);
        minimum_order_quantity = none;
        quantity_breaks = [];
      }
      ∷ [];
}

-- A codec that knows this payload by its currency.
abbrev pub service : Service
service = record {
  lib = toy;
  codec = record {
    dumps = λ c. codes c.currency;
    loads = λ b. if eq_codes b (codes "EUR") then some offer_payload else none;
    context = λ case_id ref. codes case_id ++ codes ref;
  };
  encryptor = local_key;
  sealed_bid_enabled = true;
  unicode = ascii;
}

service-IsFaithful : IsFaithful service (commercial_of offer)
unfolding commercial_of eq_codes
service-IsFaithful = record {
  lawful = toy-AreLawful;
  loads_dumps = refl;
  dumps_bytes = (omega arith, (omega arith, (omega arith, tt)));
}

abbrev nonce : Bytes
nonce = eight 5 (eight 6 [])

abbrev empty_row : Quotation
empty_row = new_row "A1" "C1" "V1" 0 QuotationStatus.sealed offer

pump-IsPriced : IsPriced pump
unfolding Decimal.eq
pump-IsPriced = record { quantity = refl; unit_price = refl; line_total = refl; price_unit = refl }

total_given : Decimal.eq (of_ℕ 94) (of_ℕ 0) ≡ false
unfolding Decimal.eq
total_given = refl

fits : length (service.codec.dumps (commercial_of offer)) ≤ 8160
unfolding commercial_of
fits = omega arith

sealed_offer_opens_example :
    (e : String × String) × (write_offer service nonce true offer empty_row
      ≡ ok (
          write_technical_lines offer
            (record empty_row { is_sealed = true; sealed_payload = e.0; sealed_key_id = e.1 })))
    × (unseal_row service "anna" 7 (
          write_technical_lines offer
            (record empty_row { is_sealed = true; sealed_payload = e.0; sealed_key_id = e.1 }))
        ≡ ok (opened_by "anna" 7 (in_clear offer e empty_row)))
sealed_offer_opens_example =
    sealed_offer_opens service offer empty_row service-IsFaithful nonce refl refl total_given
      (pump-IsPriced, tt) (tt, tt) fits "anna" 7

abbrev pub case_at : Bool → SourcingCase
case_at unlocked = record (new_case "C1" "PR1" 1) { commercial_unlocked = unlocked }

abbrev arrival : Option ℕ → Arrival
arrival round = record {
  quotation_id = "A1";
  vendor_id = "V1";
  negotiation_round = round;
  nonce = nonce;
}

abbrev row_of : Result (List Quotation × Quotation) → Quotation
row_of (ok (table, q)) = q
row_of (err _) = empty_row

abbrev pub sealed_row : Quotation
sealed_row = row_of (ingest_text service (case_at false) (arrival (some 0)) offer [])

abbrev rows_of : Result (ℕ × List Quotation) → List Quotation
rows_of (ok (n, rows)) = rows
rows_of (err _) = []

abbrev opened_rows : List Quotation
opened_rows = rows_of (unseal_case service (case_at true) "anna" 7 (sealed_row ∷ []))

opened_run : unseal_case service (case_at true) "anna" 7 (sealed_row ∷ []) ≡ ok (1, opened_rows)
unfolding ingest_text new_case commercial_of seal_payload Envelope.encrypt derive expand xor_bytes
    find_by_vendor find_earlier write_technical_lines to_dict unseal_case unseal_rows unseal_row
    unseal_payload Envelope.decrypt drop eq_codes apply_sealed_payload is_status
opened_run = refl

unseal_case-IsUnsealing_example :
    IsUnsealing service (case_at true) "anna" 7 (sealed_row ∷ []) 1 opened_rows
unseal_case-IsUnsealing_example =
    unseal_case-IsUnsealing service (case_at true) "anna" 7 (sealed_row ∷ []) 1 opened_rows
      opened_run

-- The offer of the first round, found qualified.
abbrev judged : Quotation
judged = record empty_row {
  quotation_id = "A0";
  status = QuotationStatus.technically_qualified;
  technically_qualified = some true;
}

abbrev revised : Quotation
revised = row_of (ingest_text service (case_at true) (arrival (some 1)) offer (judged ∷ []))

revised_run :
    ingest_text service (case_at true) (arrival (some 1)) offer (judged ∷ [])
    ≡ ok (judged ∷ revised ∷ [], revised)
unfolding ingest_text new_case find_by_vendor find_earlier write_all_lines to_dict or_decimal
    apply_commercial write_offer Decimal.eq
revised_run = refl

revised_qualified : revised.technically_qualified ≡ some true
unfolding ingest_text new_case find_by_vendor find_earlier write_all_lines to_dict or_decimal
    apply_commercial write_offer Decimal.eq parts_changed
revised_qualified = refl

ingest_text-IsInherited_example : IsInherited ascii (judged ∷ []) "V1" revised
ingest_text-IsInherited_example =
    ingest_text-IsInherited service (case_at true) (arrival (some 1)) offer (judged ∷ [])
      (judged ∷ revised ∷ []) revised revised_run revised_qualified

no_second : find_by_vendor (judged ∷ []) "V1" 1 ≡ none
unfolding find_by_vendor
no_second = refl

first_found : find_earlier (judged ∷ []) "V1" 1 ≡ some judged
unfolding find_earlier find_by_vendor
first_found = refl

declined-qualified_example :
    (table : List Quotation) × (q : Quotation) × (ingest_text service
        (case_at true)
        (arrival (some 1))
        (answer true [])
        (judged ∷ [])
      ≡ ok (table, q))
    × (q.status ≡ QuotationStatus.technically_qualified)
    × (is_listed q ≡ true)
declined-qualified_example =
    declined-qualified service (case_at true) (arrival (some 1)) (answer true []) (judged ∷ [])
      judged refl refl no_second first_found refl
