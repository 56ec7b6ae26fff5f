-- ===== src/Quotation/Leak.antt =====
-- What a sealed row shows without opening its envelope.
use procurement_automation.Prelude.{◌≡◌, true, [], All, none}
use procurement_automation.Decimal.{of_ℕ}
use procurement_automation.Quotation.{ParsedQuotation, QuotationLine, Quotation}

-- A line holds placeholders in place of its prices, currency and quantities that go with a price.
abbrev pub IsBlankLine : QuotationLine → Type 0
IsBlankLine l =
    (l.unit_price ≡ of_ℕ 0)
    × (l.line_total ≡ of_ℕ 0)
    × (l.price_per_quantity ≡ of_ℕ 1)
    × (l.currency ≡ "XXX")
    × (l.minimum_order_quantity ≡ none)
    × (l.quantity_breaks ≡ [])

-- Every column of an amount, and those of each line, hold placeholders.
abbrev pub IsBlank : Quotation → Type 0
IsBlank q =
    (q.currency ≡ "")
    × (q.payment_terms ≡ "")
    × (q.freight_amount ≡ of_ℕ 0)
    × (q.packing_amount ≡ of_ℕ 0)
    × (q.tooling_amount ≡ of_ℕ 0)
    × (q.other_charges ≡ of_ℕ 0)
    × (q.discount_amount ≡ of_ℕ 0)
    × (q.total_amount ≡ of_ℕ 0)
    × All IsBlankLine q.lines

-- The stored extract of the parser's output gives the amounts.
abbrev pub ShowsAmounts : ParsedQuotation → Quotation → Type 0
ShowsAmounts p q =
    (q.raw_extract.currency ≡ p.currency)
    × (q.raw_extract.total_amount ≡ p.total_amount)
    × (q.raw_extract.freight_amount ≡ p.freight_amount)
    × (q.raw_extract.packing_amount ≡ p.packing_amount)
    × (q.raw_extract.tooling_amount ≡ p.tooling_amount)
    × (q.raw_extract.other_charges ≡ p.other_charges)
    × (q.raw_extract.discount_amount ≡ p.discount_amount)

-- A row that a sealed offer left.
abbrev pub IsSealedRow : ParsedQuotation → Quotation → Type 0
IsSealedRow p q = (q.is_sealed ≡ true) × IsBlank q × ShowsAmounts p q
