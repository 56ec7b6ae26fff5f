-- ===== src/Money/Fx.antt =====
-- `FxRateTable` (procureguard/domain/money.py). A date is its day number.
pub mod Latest
pub mod Lookup
use procurement_automation.Prelude.{
  ℕ, leb, ltb, Bool, true, false, not, ◌&&◌, ◌||◌, if◌then◌else◌, Option, none, some, List, [], ◌∷◌,
  ◌++◌, keep,
}
use procurement_automation.Prelude.Text.{Codes, Unicode, upper, eq_codes}
use procurement_automation.Errors.{Error, Result, ok, err}
use procurement_automation.Decimal
use procurement_automation.Decimal.{Decimal, of_ℕ}
use procurement_automation.Money
use procurement_automation.Money.{Money, or_raise, ◌>>=◌}

-- `FxRate`
pub record FxRate : Type 0 where
  pub base : Codes
  pub quote : Codes
  pub rate : Decimal
  pub as_of : ℕ

-- The buckets, by base and quote, in insertion order, each sorted by date.
abbrev pub Buckets : Type 0
Buckets = List (Codes × Codes × List FxRate)

pub record FxRateTable : Type 0 where
  pub base_currency : Codes
  pub rates : Buckets

-- `bucket.append(rate)` and the stable sort by date, of a bucket that is sorted.
unfoldable pub insert_rate : FxRate → List FxRate → List FxRate
insert_rate r [] = r ∷ []
insert_rate r (s ∷ rest) = if leb s.as_of r.as_of then s ∷ insert_rate r rest else r ∷ s ∷ rest

abbrev pub same_pair : Codes → Codes → Codes → Codes → Bool
same_pair a b c d = eq_codes a c && eq_codes b d

unfoldable pub bucket_of : Buckets → Codes → Codes → List FxRate
bucket_of [] base quote = []
bucket_of ((b, q, rates) ∷ rest) base quote =
    if same_pair b q base quote then rates else bucket_of rest base quote

unfoldable pub add_to : Buckets → Codes → Codes → FxRate → Buckets
unfolding insert_rate
add_to [] base quote r = (base, quote, r ∷ []) ∷ []
add_to ((b, q, rates) ∷ rest) base quote r =
    if same_pair b q base quote
    then (b, q, insert_rate r rates) ∷ rest
    else (b, q, rates) ∷ add_to rest base quote r

-- `add`
unfoldable pub add : Unicode → FxRate → FxRateTable → FxRateTable
unfolding add_to upper
add u r table = record table { rates = add_to table.rates (upper u r.base) (upper u r.quote) r }

-- `add_many`
unfoldable pub add_many : Unicode → List FxRate → FxRateTable → FxRateTable
unfolding add
add_many u [] table = table
add_many u (r ∷ rest) table = add_many u rest (add u r table)

abbrev pub last_rate : FxRate → List FxRate → FxRate
last_rate r [] = r
last_rate r (s ∷ rest) = last_rate s rest

-- `candidates[-1]`, or the earliest rate that there is.
abbrev pub pick : List FxRate → List FxRate → Option FxRate
pick [] [] = none
pick [] (first ∷ bucket) = some first
pick (c ∷ candidates) bucket = some (last_rate c candidates)

unfoldable pub direct_rate : List FxRate → ℕ → Option FxRate
direct_rate bucket date = pick (keep (λ r. leb r.as_of date) bucket) bucket

abbrev pub rate_value : Option FxRate → Option Decimal
rate_value none = none
rate_value (some r) = some r.rate

-- `_direct`
unfoldable pub direct : FxRateTable → Codes → Codes → ℕ → Option Decimal
unfolding direct_rate bucket_of eq_codes
direct table base quote date = rate_value (direct_rate (bucket_of table.rates base quote) date)

abbrev nonzero : Decimal → Bool
nonzero d = not (Decimal.eq d (of_ℕ 0))

-- The third try of `rate`: base to pivot to quote.
abbrev legs : Option Decimal → Option Decimal → Result Decimal
legs (some a) (some b) =
    if nonzero a && nonzero b then or_raise (Decimal.div b a) else err Error.currency_conversion
legs _ _ = err Error.currency_conversion

triangulate : FxRateTable → Codes → Codes → ℕ → Result Decimal
unfolding direct eq_codes
triangulate table base quote date =
    let pivot = table.base_currency in
    if not (eq_codes base pivot) && not (eq_codes quote pivot)
    then legs (direct table pivot base date) (direct table pivot quote date)
    else err Error.currency_conversion

-- The second try: the inverse rate.
abbrev invert : Option Decimal → Result Decimal → Result Decimal
invert none other = other
invert (some r) other = if nonzero r then or_raise (Decimal.div (of_ℕ 1) r) else other

abbrev or_try : Option Decimal → Result Decimal → Result Decimal
or_try none other = other
or_try (some r) other = ok r

-- `rate`, at the date given, which is today by default
unfoldable pub rate : Unicode → FxRateTable → Codes → Codes → ℕ → Result Decimal
unfolding direct triangulate eq_codes upper
rate u table from to date =
    let base = upper u from in
    let quote = upper u to in
    if eq_codes base quote
    then ok (of_ℕ 1)
    else or_try (direct table base quote date)
        (invert (direct table quote base date) (triangulate table base quote date))

-- `convert`
unfoldable pub convert : Unicode → FxRateTable → Money → Codes → ℕ → Result Money
convert u table money to date =
    let target = upper u to in
    if eq_codes money.currency target then ok money else (do
      r ← rate u table money.currency target date
      Money.make u (Decimal.mul money.amount r) target)
