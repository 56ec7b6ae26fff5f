-- ===== src/Requisition/Total.antt =====
-- `total_estimated_value` of a requisition.
use procurement_automation.Prelude.{if◌then◌else◌, Option, none, some, List, [], ◌∷◌, is_empty}
use procurement_automation.Prelude.Text.{Codes, Unicode, codes, upper, eq_codes}
use procurement_automation.Errors.{Result, ok}
use procurement_automation.Decimal
use procurement_automation.Decimal.{Decimal, of_ℕ}
use procurement_automation.Money
use procurement_automation.Money.{Money, or_raise, ◌>>=◌}
use procurement_automation.Requisition.{PurchaseRequisition, PurchaseRequisitionLine}

-- `line.currency or self.currency or currency`
abbrev or_text : Codes → Codes → Codes
or_text s t = if is_empty s then t else s

unfoldable pub line_currency :
    Unicode → PurchaseRequisition → PurchaseRequisitionLine → Codes → Codes
unfolding upper
line_currency u pr l currency =
    upper u (or_text (codes l.currency) (or_text (codes pr.currency) currency))

-- The value of a line with a price; a quantity that is missing is no decimal.
unfoldable pub line_value : Unicode → Decimal → Option Decimal → Codes → Result Money
line_value u price quantity currency = do
  q ← or_raise quantity
  Money.make u (Decimal.mul price q) currency

abbrev pub added :
    Unicode
    → PurchaseRequisition
    → PurchaseRequisitionLine
    → Codes
    → Option Decimal
    → Money
    → Result Money
added u pr l currency none total = ok total
added u pr l currency (some price) total =
    if eq_codes (line_currency u pr l currency) currency
    then (do value ← line_value u price l.quantity currency; Money.add u total value)
    else ok total

unfoldable pub total_from :
    Unicode → PurchaseRequisition → Codes → List PurchaseRequisitionLine → Money → Result Money
unfolding line_currency line_value
total_from u pr currency [] total = ok total
total_from u pr currency (l ∷ rest) total = do
  next ← added u pr l currency l.estimated_unit_price total
  total_from u pr currency rest next

-- `total_estimated_value`
unfoldable pub total_estimated_value : Unicode → PurchaseRequisition → Codes → Result Money
unfolding total_from
total_estimated_value u pr currency = do
  total ← Money.zero_money u currency
  total_from u pr currency pr.lines total
