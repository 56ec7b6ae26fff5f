-- ===== src/Quotation/RoundTrip.antt =====
-- Unsealing writes what an offer that was never sealed would have written.
use procurement_automation.Prelude.{
  ℕ, ◌==◌, ==_iff, ◌≡◌, ◌≢◌, refl, true, false, Option, none, some, List, [], ◌∷◌, map, String, All,
  arith,
}
use procurement_automation.Decimal
use procurement_automation.Decimal.{Decimal, of_ℕ}
use procurement_automation.Quotation.{ParsedQuotationLine, ParsedQuotation, Quotation, or_decimal}
use procurement_automation.Quotation.Seal.{
  sealed_line, commercial_of, technical_line, write_technical_lines, priced_line, write_all_lines,
  apply_commercial, read_amount, or_kept, or_kept_option, entry_for, fill_line, fill_lines,
  apply_sealed_payload,
}

-- An amount that is missing, or given and not 0.
abbrev pub IsGiven : Option Decimal → Type 0
IsGiven none = Unit
IsGiven (some d) = Decimal.eq d (of_ℕ 0) ≡ false

-- No amount of the line is 0.
pub record IsPriced (line : ParsedQuotationLine) : Type 0 where
  pub quantity : IsGiven line.quantity
  pub unit_price : IsGiven line.unit_price
  pub line_total : IsGiven line.line_total
  pub price_unit : IsGiven (some line.price_per_quantity)

-- No two lines answer the same line of the request.
abbrev pub AreDistinct : List ParsedQuotationLine → Type 0
AreDistinct [] = Unit
AreDistinct (line ∷ rest) =
    All (λ other. line.rfq_line_number ≢ other.rfq_line_number) rest × AreDistinct rest

read-or_decimal : (o : Option Decimal) → IsGiven o → read_amount o ≡ or_decimal o (of_ℕ 0)
unfolding or_decimal
read-or_decimal none h = refl
read-or_decimal (some d) h = rw h refl

kept-or_decimal :
    (o : Option Decimal) → IsGiven o → or_kept o (or_decimal o (of_ℕ 0)) ≡ or_decimal o (of_ℕ 0)
unfolding or_decimal
kept-or_decimal none h = refl
kept-or_decimal (some d) h = rw h refl

given-or_decimal : (d e : Decimal) → IsGiven (some d) → or_decimal (some d) e ≡ d
unfolding or_decimal
given-or_decimal d e h = rw h refl

kept-none : (o : Option Decimal) → or_kept_option o none ≡ o
kept-none none = refl
kept-none (some d) = refl

fill_line-priced_line :
    (currency : String) (line : ParsedQuotationLine)
    → IsPriced line
    → fill_line currency (technical_line line) (some (sealed_line line)) ≡ priced_line currency line
fill_line-priced_line currency line h =
    rw
      (
        read-or_decimal line.unit_price h.unit_price,
        read-or_decimal line.line_total h.line_total,
        kept-or_decimal line.quantity h.quantity,
        given-or_decimal line.price_per_quantity (of_ℕ 1) h.price_unit,
        kept-none line.minimum_order_quantity,
      )
      refl

no_entry :
    (n : ℕ) (lines : List ParsedQuotationLine)
    → All (λ other. n ≢ other.rfq_line_number) lines
    → entry_for n (map sealed_line lines) ≡ none
unfolding entry_for
no_entry n [] h = refl
no_entry n (line ∷ lines) (here, later) =
    let apart : (line.rfq_line_number == n) ≡ false =
      ground (arith, ==_iff line.rfq_line_number n) in
    rw (no_entry n lines later, apart) refl

-- Each line finds its own entry among those of all lines.
abbrev HaveEntries : List ParsedQuotationLine → List ParsedQuotationLine → Type 0
HaveEntries lines =
    All (λ line. entry_for line.rfq_line_number (map sealed_line lines) ≡ some (sealed_line line))

HaveEntries-cons :
    (line : ParsedQuotationLine) (lines some_lines : List ParsedQuotationLine)
    → HaveEntries lines some_lines
    → HaveEntries (line ∷ lines) some_lines
unfolding entry_for
HaveEntries-cons line lines [] h = tt
HaveEntries-cons line lines (x ∷ xs) (here, later) =
    (rw here refl, HaveEntries-cons line lines xs later)

AreDistinct-HaveEntries :
    (lines : List ParsedQuotationLine) → AreDistinct lines → HaveEntries lines lines
unfolding entry_for
AreDistinct-HaveEntries [] h = tt
AreDistinct-HaveEntries (line ∷ lines) (here, later) =
    let same : (line.rfq_line_number == line.rfq_line_number) ≡ true = ground arith in
    (
      rw (no_entry line.rfq_line_number lines here, same) refl,
      HaveEntries-cons line lines lines (AreDistinct-HaveEntries lines later),
    )

fill_lines-priced_line :
    (currency : String) (all lines : List ParsedQuotationLine)
    → HaveEntries all lines
    → All IsPriced lines
    → fill_lines currency (map sealed_line all) (map technical_line lines)
      ≡ map (priced_line currency) lines
unfolding fill_lines
fill_lines-priced_line currency all [] e h = refl
fill_lines-priced_line currency all (line ∷ lines) (e, es) (h, hs) =
    rw (e, fill_line-priced_line currency line h, fill_lines-priced_line currency all lines es hs)
      refl

-- Take an offer whose lines answer different lines of the request and in which no given amount is
-- 0. Writing its technical lines into a new row and unsealing its commercial part later gives the
-- very row that writing everything in clear gives.
pub apply_sealed_payload-write_technical_lines :
    (p : ParsedQuotation) (q : Quotation)
    → q.lines ≡ []
    → IsGiven p.total_amount
    → All IsPriced p.lines
    → AreDistinct p.lines
    → apply_sealed_payload (commercial_of p) (write_technical_lines p q)
      ≡ write_all_lines p (apply_commercial p q)
unfolding apply_sealed_payload commercial_of write_technical_lines write_all_lines apply_commercial
apply_sealed_payload-write_technical_lines p q fresh total priced distinct =
    rw
      (
        fresh,
        read-or_decimal p.total_amount total,
        fill_lines-priced_line p.currency p.lines p.lines (AreDistinct-HaveEntries p.lines distinct)
            priced,
      )
      refl
