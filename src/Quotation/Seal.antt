-- ===== src/Quotation/Seal.antt =====
-- The commercial part of an offer: written in clear, or moved into the sealed envelope and back.
use procurement_automation.Prelude.{
  ℕ, ◌==◌, if◌then◌else◌, Option, none, some, List, [], ◌∷◌, ◌++◌, map, String, str_eq,
}
use procurement_automation.Decimal.{Decimal, of_ℕ}
use procurement_automation.Quotation.{
  ParsedQuotationLine, ParsedQuotation, QuotationLine, Quotation, or_decimal,
}

-- One entry of the payload's `lines`: the fields that are read back. An amount stands for its text,
-- which `Decimal` reads back, and `none` for `null`.
pub record SealedLine : Type 0 where
  pub rfq_line_number : ℕ
  pub quantity : Option Decimal
  pub unit_price : Option Decimal
  pub price_per_quantity : Decimal
  pub currency : String
  pub line_total : Option Decimal
  pub minimum_order_quantity : Option Decimal
  pub quantity_breaks : List String

-- The dictionary `commercial`.
pub record Commercial : Type 0 where
  pub currency : String
  pub total_amount : Option Decimal
  pub freight_amount : Decimal
  pub packing_amount : Decimal
  pub tooling_amount : Decimal
  pub other_charges : Decimal
  pub discount_amount : Decimal
  pub payment_terms : String
  pub lines : List SealedLine

abbrev pub sealed_line : ParsedQuotationLine → SealedLine
sealed_line line = record {
  rfq_line_number = line.rfq_line_number;
  quantity = line.quantity;
  unit_price = line.unit_price;
  price_per_quantity = line.price_per_quantity;
  currency = line.currency;
  line_total = line.line_total;
  minimum_order_quantity = line.minimum_order_quantity;
  quantity_breaks = line.quantity_breaks;
}

unfoldable pub commercial_of : ParsedQuotation → Commercial
commercial_of p = record {
  currency = p.currency;
  total_amount = p.total_amount;
  freight_amount = p.freight_amount;
  packing_amount = p.packing_amount;
  tooling_amount = p.tooling_amount;
  other_charges = p.other_charges;
  discount_amount = p.discount_amount;
  payment_terms = p.payment_terms;
  lines = map sealed_line p.lines;
}

-- `text or default`
abbrev pub or_text : String → String → String
or_text s default = if str_eq s "" then default else s

abbrev pub technical_line : ParsedQuotationLine → QuotationLine
technical_line line = record {
  rfq_line_number = line.rfq_line_number;
  material_code = line.material_code;
  offered_description = line.offered_description;
  offered_part_number = line.offered_part_number;
  quantity = or_decimal line.quantity (of_ℕ 0);
  uom = or_text line.uom "EA";
  unit_price = of_ℕ 0;
  price_per_quantity = of_ℕ 1;
  currency = "XXX";
  line_total = of_ℕ 0;
  lead_time_days = line.lead_time_days;
  minimum_order_quantity = none;
  is_alternative = line.is_alternative;
  quantity_breaks = [];
  notes = line.notes;
}

-- `_write_technical_lines`
unfoldable pub write_technical_lines : ParsedQuotation → Quotation → Quotation
write_technical_lines p q = record q { lines = q.lines ++ map technical_line p.lines }

abbrev pub priced_line : String → ParsedQuotationLine → QuotationLine
priced_line currency line = record {
  rfq_line_number = line.rfq_line_number;
  material_code = line.material_code;
  offered_description = line.offered_description;
  offered_part_number = line.offered_part_number;
  quantity = or_decimal line.quantity (of_ℕ 0);
  uom = or_text line.uom "EA";
  unit_price = or_decimal line.unit_price (of_ℕ 0);
  price_per_quantity = or_decimal (some line.price_per_quantity) (of_ℕ 1);
  currency = or_text line.currency currency;
  line_total = or_decimal line.line_total (of_ℕ 0);
  lead_time_days = line.lead_time_days;
  minimum_order_quantity = line.minimum_order_quantity;
  is_alternative = line.is_alternative;
  quantity_breaks = line.quantity_breaks;
  notes = line.notes;
}

-- `_write_all_lines`
unfoldable pub write_all_lines : ParsedQuotation → Quotation → Quotation
write_all_lines p q = record q { lines = q.lines ++ map (priced_line p.currency) p.lines }

-- `_apply_commercial`
unfoldable pub apply_commercial : ParsedQuotation → Quotation → Quotation
apply_commercial p q = record q {
  currency = p.currency;
  payment_terms = p.payment_terms;
  freight_amount = p.freight_amount;
  packing_amount = p.packing_amount;
  tooling_amount = p.tooling_amount;
  other_charges = p.other_charges;
  discount_amount = p.discount_amount;
  total_amount = or_decimal p.total_amount (of_ℕ 0);
}

-- `Decimal(str(text or 0))`: the text of an amount is never empty, so that of 0 is read as well.
abbrev pub read_amount : Option Decimal → Decimal
read_amount none = of_ℕ 0
read_amount (some d) = d

-- `if item.get(key): ...`
abbrev pub or_kept : Option Decimal → Decimal → Decimal
or_kept none kept = kept
or_kept (some d) kept = d

abbrev pub or_kept_option : Option Decimal → Option Decimal → Option Decimal
or_kept_option none kept = kept
or_kept_option (some d) kept = some d

-- `by_line.get(number)`: of several entries with one number the last is kept.
unfoldable pub entry_for : ℕ → List SealedLine → Option SealedLine
entry_for n [] = none
entry_for n (item ∷ rest) =
    let later = entry_for n rest in
    elim later [ some x ↦ some x | none ↦ if item.rfq_line_number == n then some item else none ]

abbrev pub fill_line : String → QuotationLine → Option SealedLine → QuotationLine
fill_line currency line none = line
fill_line currency line (some item) = record line {
  unit_price = read_amount item.unit_price;
  price_per_quantity = item.price_per_quantity;
  currency = or_text item.currency currency;
  line_total = read_amount item.line_total;
  quantity = or_kept item.quantity line.quantity;
  minimum_order_quantity = or_kept_option item.minimum_order_quantity line.minimum_order_quantity;
  quantity_breaks = item.quantity_breaks;
}

unfoldable pub fill_lines : String → List SealedLine → List QuotationLine → List QuotationLine
unfolding entry_for
fill_lines currency items [] = []
fill_lines currency items (line ∷ rest) =
    fill_line currency line (entry_for line.rfq_line_number items) ∷ fill_lines currency items rest

-- `_apply_sealed_payload`
unfoldable pub apply_sealed_payload : Commercial → Quotation → Quotation
unfolding fill_lines
apply_sealed_payload c q = record q {
  currency = c.currency;
  payment_terms = c.payment_terms;
  freight_amount = c.freight_amount;
  packing_amount = c.packing_amount;
  tooling_amount = c.tooling_amount;
  other_charges = c.other_charges;
  discount_amount = c.discount_amount;
  total_amount = read_amount c.total_amount;
  lines = fill_lines c.currency c.lines q.lines;
}
