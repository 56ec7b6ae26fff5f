-- ===== src/Money.antt =====
-- Money in one currency (procureguard/domain/money.py). A currency code is its code points.
pub mod Fx
pub mod Laws
pub mod Terms
use procurement_automation.Prelude.{
  ℕ, ◌+◌, ◌==◌, Bool, true, false, not, ◌&&◌, ◌||◌, if◌then◌else◌, Option, none, some, List, [],
  ◌∷◌, String, length, is_empty, keep,
}
use procurement_automation.Prelude.Text.{Codes, Unicode, codes, strip, upper, eq_codes, is_alpha}
use procurement_automation.Errors.{Error, Result, ok, err}
use procurement_automation.Decimal
use procurement_automation.Decimal.{Decimal, of_ℕ}

infixl 5 ◌>>=◌ ◌>>◌
abbrev pub ◌>>=◌ : {A B : Type 0} → Result A → (A → Result B) → Result B
ok a >>= f = f a
err e >>= f = err e

abbrev pub ◌>>◌ : {A : Type 0} → Result (Unit {0}) → Result A → Result A
m >> k = m >>= λ _. k

-- `CURRENCY_EXPONENT`
abbrev pub currency_exponents : List (String × ℕ)
currency_exponents =
    ("USD", 2)
    ∷ ("EUR", 2)
    ∷ ("GBP", 2)
    ∷ ("CHF", 2)
    ∷ ("SEK", 2)
    ∷ ("NOK", 2)
    ∷ ("DKK", 2)
    ∷ ("PLN", 2)
    ∷ ("CZK", 2)
    ∷ ("TRY", 2)
    ∷ ("INR", 2)
    ∷ ("CNY", 2)
    ∷ ("SGD", 2)
    ∷ ("AUD", 2)
    ∷ ("CAD", 2)
    ∷ ("MXN", 2)
    ∷ ("BRL", 2)
    ∷ ("ZAR", 2)
    ∷ ("AED", 2)
    ∷ ("SAR", 2)
    ∷ ("THB", 2)
    ∷ ("MYR", 2)
    ∷ ("PHP", 2)
    ∷ ("IDR", 2)
    ∷ ("HKD", 2)
    ∷ ("NZD", 2)
    ∷ ("ILS", 2)
    ∷ ("JPY", 0)
    ∷ ("KRW", 0)
    ∷ ("VND", 0)
    ∷ ("CLP", 0)
    ∷ ("BHD", 3)
    ∷ ("KWD", 3)
    ∷ ("OMR", 3)
    ∷ ("TND", 3)
    ∷ []

find_exponent : List (String × ℕ) → Codes → ℕ
unfolding eq_codes
find_exponent [] code = 2
find_exponent ((c, n) ∷ rest) code = if eq_codes (codes c) code then n else find_exponent rest code

-- `currency_exponent`, 2 by default
unfoldable pub currency_exponent : Unicode → Codes → ℕ
unfolding upper find_exponent
currency_exponent u currency = find_exponent currency_exponents (upper u currency)

-- `Money`
pub record Money : Type 0 where
  pub amount : Decimal
  pub currency : Codes

unfoldable pub all_alpha : Unicode → Codes → Bool
unfolding is_alpha
all_alpha u [] = true
all_alpha u (c ∷ s) = is_alpha u c && all_alpha u s

-- The constructor, with its `__post_init__`.
unfoldable pub make : Unicode → Decimal → Codes → Result Money
unfolding strip upper all_alpha
make u amount currency =
    let code = upper u (strip currency) in
    if not (length code == 3) || not (all_alpha u code && not (is_empty code))
    then err Error.validation
    else ok (record { amount = amount; currency = code })

-- `Money.zero`
unfoldable pub zero_money : Unicode → Codes → Result Money
zero_money u currency = make u (of_ℕ 0) currency

-- `_assert_same`
unfoldable pub assert_same : Money → Money → Result (Unit {0})
unfolding eq_codes
assert_same a b = if eq_codes a.currency b.currency then ok tt else err Error.currency_conversion

-- `a + b`, `a - b`
unfoldable pub add : Unicode → Money → Money → Result Money
add u a b = do assert_same a b; make u (Decimal.add a.amount b.amount) a.currency

unfoldable pub sub : Unicode → Money → Money → Result Money
sub u a b = do assert_same a b; make u (Decimal.sub a.amount b.amount) a.currency

-- `a * factor`, `-a`
unfoldable pub mul : Unicode → Money → Decimal → Result Money
mul u a factor = make u (Decimal.mul a.amount factor) a.currency

unfoldable pub negate : Unicode → Money → Result Money
negate u a = make u (Decimal.fix (Decimal.negate a.amount)) a.currency

-- An exception of `decimal` that is none of the program's.
abbrev pub or_raise : {A : Type 0} → Option A → Result A
or_raise none = err Error.procure_guard
or_raise (some a) = ok a

-- `a / divisor`
unfoldable pub div : Unicode → Money → Decimal → Result Money
div u a divisor =
    if Decimal.eq divisor (of_ℕ 0)
    then err Error.validation
    else (do q ← or_raise (Decimal.div a.amount divisor); make u q a.currency)

-- `a < b`, `a <= b`
unfoldable pub lt : Money → Money → Result Bool
lt a b = do assert_same a b; ok (Decimal.lt a.amount b.amount)

unfoldable pub le : Money → Money → Result Bool
le a b = do assert_same a b; ok (Decimal.le a.amount b.amount)

-- `quantize`: to the minor unit of the currency, half up
unfoldable pub quantize : Unicode → Money → Result Money
unfolding currency_exponent
quantize u a = do
  q ← or_raise (Decimal.quantize_half_up (currency_exponent u a.currency) a.amount)
  make u q a.currency

-- `round_to`
unfoldable pub round_to : Unicode → ℕ → Money → Result Money
round_to u places a = do
  q ← or_raise (Decimal.quantize_half_up places a.amount)
  make u q a.currency

-- `is_zero`, `is_positive`
unfoldable pub is_zero : Money → Bool
is_zero a = Decimal.eq a.amount (of_ℕ 0)

unfoldable pub is_positive : Money → Bool
is_positive a = Decimal.lt (of_ℕ 0) a.amount

-- `a / base * 100` to four places
abbrev percentage : Decimal → Decimal → Result Decimal
percentage a base = do
  ratio ← or_raise (Decimal.div a base)
  or_raise (Decimal.quantize 4 (Decimal.mul ratio (of_ℕ 100)))

-- `pct_of`
unfoldable pub pct_of : Money → Money → Result Decimal
pct_of a base =
    assert_same a base
    >> (if Decimal.eq base.amount (of_ℕ 0)
        then err Error.validation
        else percentage a.amount base.amount)

-- `apply_pct`
unfoldable pub apply_pct : Unicode → Money → Decimal → Result Money
apply_pct u a pct = do
  share ← or_raise (Decimal.div pct (of_ℕ 100))
  make u (Decimal.mul a.amount (Decimal.add (of_ℕ 1) share)) a.currency

-- `money_sum`
unfoldable pub sum_from : Unicode → Money → List Money → Result Money
sum_from u total [] = ok total
sum_from u total (x ∷ xs) = do t ← add u total x; sum_from u t xs

unfoldable pub money_sum : Unicode → List Money → Codes → Result Money
unfolding sum_from
money_sum u items currency = do total ← zero_money u currency; sum_from u total items
