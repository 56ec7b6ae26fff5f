-- ===== src/Quotation.antt =====
-- Quotations: what the parser reads out of an offer, and the rows that are stored
-- (procureguard/ingestion/parsers/quotation_parser.py, infrastructure/db/models.py and
-- application/quotation_ingestion.py). Quantity breaks are texts; technical attributes, answers and
-- the parser's warnings are not modelled.
pub mod Seal
pub mod RoundTrip
pub mod Payload
pub mod Ingest
pub mod Unseal
pub mod Opened
pub mod Guard
pub mod Leak
pub mod Verdict
use procurement_automation.Prelude.{
  ℕ, suc, Bool, true, false, ◌&&◌, not, if◌then◌else◌, Option, none, some, List, [], ◌∷◌, String,
  length, keep,
}
use procurement_automation.Decimal
use procurement_automation.Decimal.{Decimal, of_ℕ}
use procurement_automation.Vocabulary.Sourcing.{QuotationStatus}

-- `ParsedQuotationLine`
pub record ParsedQuotationLine : Type 0 where
  pub rfq_line_number : ℕ
  pub material_code : String
  pub offered_description : String
  pub offered_part_number : String
  pub quantity : Option Decimal
  pub uom : String
  pub unit_price : Option Decimal
  pub price_per_quantity : Decimal
  pub currency : String
  pub lead_time_days : ℕ
  pub minimum_order_quantity : Option Decimal
  pub line_total : Option Decimal
  pub notes : String
  pub is_alternative : Bool
  pub quantity_breaks : List String

-- `ParsedQuotation`
pub record ParsedQuotation : Type 0 where
  pub quotation_number : String
  pub currency : String
  pub incoterm : String
  pub incoterm_location : String
  pub payment_terms : String
  pub validity_days : ℕ
  pub lead_time_days : ℕ
  pub freight_amount : Decimal
  pub packing_amount : Decimal
  pub tooling_amount : Decimal
  pub other_charges : Decimal
  pub discount_amount : Decimal
  pub total_amount : Option Decimal
  pub warranty_months : ℕ
  pub declined : Bool
  pub lines : List ParsedQuotationLine
  pub confidence : Decimal
  pub source_format : String

-- `is_priced`
unfoldable pub is_priced : ParsedQuotationLine → Bool
is_priced line = elim line.unit_price [ none ↦ false | some p ↦ Decimal.lt (of_ℕ 0) p ]

-- What `to_dict` keeps of a parsed quotation.
pub record RawExtract : Type 0 where
  pub quotation_number : String
  pub currency : String
  pub incoterm : String
  pub incoterm_location : String
  pub payment_terms : String
  pub validity_days : ℕ
  pub lead_time_days : ℕ
  pub freight_amount : Decimal
  pub packing_amount : Decimal
  pub tooling_amount : Decimal
  pub other_charges : Decimal
  pub discount_amount : Decimal
  pub total_amount : Option Decimal
  pub warranty_months : ℕ
  pub declined : Bool
  pub confidence : Decimal
  pub source_format : String
  pub line_count : ℕ
  pub priced_line_count : ℕ

-- `ParsedQuotation.to_dict`
unfoldable pub to_dict : ParsedQuotation → RawExtract
unfolding is_priced
to_dict p = record {
  quotation_number = p.quotation_number;
  currency = p.currency;
  incoterm = p.incoterm;
  incoterm_location = p.incoterm_location;
  payment_terms = p.payment_terms;
  validity_days = p.validity_days;
  lead_time_days = p.lead_time_days;
  freight_amount = p.freight_amount;
  packing_amount = p.packing_amount;
  tooling_amount = p.tooling_amount;
  other_charges = p.other_charges;
  discount_amount = p.discount_amount;
  total_amount = p.total_amount;
  warranty_months = p.warranty_months;
  declined = p.declined;
  confidence = p.confidence;
  source_format = p.source_format;
  line_count = length p.lines;
  priced_line_count = length (keep is_priced p.lines);
}

-- A row of `quotation_lines`.
pub record QuotationLine : Type 0 where
  pub rfq_line_number : ℕ
  pub material_code : String
  pub offered_description : String
  pub offered_part_number : String
  pub quantity : Decimal
  pub uom : String
  pub unit_price : Decimal
  pub price_per_quantity : Decimal
  pub currency : String
  pub line_total : Decimal
  pub lead_time_days : ℕ
  pub minimum_order_quantity : Option Decimal
  pub is_alternative : Bool
  pub quantity_breaks : List String
  pub notes : String

-- A row of `quotations`, with its lines.
pub record Quotation : Type 0 where
  pub quotation_id : String
  pub quotation_number : String
  pub case_id : String
  pub vendor_id : String
  pub revision : ℕ
  pub negotiation_round : ℕ
  pub status : QuotationStatus
  pub currency : String
  pub incoterm : String
  pub incoterm_location : String
  pub payment_terms : String
  pub validity_days : ℕ
  pub lead_time_days : ℕ
  pub freight_amount : Decimal
  pub packing_amount : Decimal
  pub tooling_amount : Decimal
  pub other_charges : Decimal
  pub discount_amount : Decimal
  pub total_amount : Decimal
  pub warranty_months : ℕ
  pub is_sealed : Bool
  pub sealed_payload : String
  pub sealed_key_id : String
  pub unsealed_at : Option ℕ
  pub unsealed_by : String
  pub parse_confidence : Decimal
  pub technical_score : Option Decimal
  pub technically_qualified : Option Bool
  pub raw_extract : RawExtract
  pub supersedes_quotation_id : String
  pub lines : List QuotationLine

-- `d or default`: 0 counts as missing.
unfoldable pub or_decimal : Option Decimal → Decimal → Decimal
or_decimal none default = default
or_decimal (some d) default = if Decimal.eq d (of_ℕ 0) then default else d
