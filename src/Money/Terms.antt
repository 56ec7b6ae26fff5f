-- ===== src/Money/Terms.antt =====
-- `PaymentTerms` (procureguard/domain/money.py), as parsed. The parser's regular expressions are
-- not modelled, and the power with an integral exponent is an argument of `present_value`.
use procurement_automation.Prelude.{ℕ, ltb, ◌==◌, Bool, ◌&&◌, if◌then◌else◌, String}
use procurement_automation.Prelude.Text.{Unicode}
use procurement_automation.Int.{ℤ, pos, sub_ℕ}
use procurement_automation.Errors.{Result, ok}
use procurement_automation.Decimal
use procurement_automation.Decimal.{Decimal, of_ℕ}
use procurement_automation.Money
use procurement_automation.Money.{Money, or_raise, ◌>>=◌}

pub record PaymentTerms : Type 0 where
  pub raw : String
  pub net_days : ℕ
  pub discount_pct : Decimal
  pub discount_days : ℕ
  pub requires_advance : Bool
  pub requires_lc : Bool

-- There is a discount, and days to take it.
unfoldable pub has_discount : PaymentTerms → Bool
has_discount t = Decimal.lt (of_ℕ 0) t.discount_pct && ltb 0 t.discount_days

-- `effective_days`
unfoldable pub effective_days : PaymentTerms → ℕ
unfolding has_discount
effective_days t = if has_discount t then t.discount_days else t.net_days

-- The exponent of `present_value`: negative for an advance payment.
unfoldable pub credit_days : PaymentTerms → ℤ
unfolding effective_days
credit_days t =
    if t.requires_advance
    then sub_ℕ 0 (if t.net_days == 0 then 30 else t.net_days)
    else pos (effective_days t)

-- The amount that is paid: less the discount, if it is taken.
unfoldable pub payable : Unicode → PaymentTerms → Money → Result Money
unfolding has_discount
payable u t gross =
    if has_discount t
    then (do
      share ← or_raise (Decimal.div t.discount_pct (of_ℕ 100))
      Money.mul u gross (Decimal.sub (of_ℕ 1) share))
    else ok gross

-- `present_value`; `power` is `**`
unfoldable pub present_value :
    Unicode → (Decimal → ℤ → Decimal) → PaymentTerms → Money → Decimal → Result Money
unfolding payable credit_days
present_value u power t gross daily_rate = do
  paid ← payable u t gross
  factor ← or_raise (Decimal.div (of_ℕ 1) (power (Decimal.add (of_ℕ 1) daily_rate) (credit_days t)))
  Money.make u (Decimal.mul paid.amount factor) paid.currency
