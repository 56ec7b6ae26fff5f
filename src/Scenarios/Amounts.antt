-- ===== src/Scenarios/Amounts.antt =====
-- Amounts of money and exchange rates.
use procurement_automation.Prelude.{Option, keep, ◌++◌, ℕ, ◌≡◌, refl, some, List, [], ◌∷◌}
use procurement_automation.Prelude.Text.{codes, strip, upper}
use procurement_automation.Errors.{ok}
use procurement_automation.Int
use procurement_automation.Decimal
use procurement_automation.Decimal.{Decimal, of_ℕ, dec}
use procurement_automation.Decimal.Rounding.{IsRoundedHalfUp}
use procurement_automation.Money
use procurement_automation.Money.{
  Money, make, add, sub, lt, le, pct_of, money_sum, quantize, currency_exponent, all_alpha,
}
use procurement_automation.Money.Laws.{
  IsCode, IsSum, all_in, total, money_sum-IsSum, money_quantize-IsRounded,
}
use procurement_automation.Money.Fx.{
  FxRate, FxRateTable, add_many, direct_rate, bucket_of, direct, rate_value,
}
use procurement_automation.Money.Fx.Latest.{IsLookup}
use procurement_automation.Money.Fx.Lookup.{is_between, direct-IsLookup}
use procurement_automation.Scenarios.{ascii}

abbrev usd : Decimal → Money
usd a = record { amount = a; currency = codes "USD" }

abbrev eur : Decimal → Money
eur a = record { amount = a; currency = codes "EUR" }

usd-IsCode : IsCode ascii (codes "USD")
unfolding make strip upper all_alpha
usd-IsCode a = refl

abbrev lines : List Money
lines = usd (dec (Int.pos 1250) 2) ∷ usd (of_ℕ 3) ∷ []

money_sum-IsSum_example :
    IsSum
      (all_in (codes "USD") lines)
      (codes "USD")
      (total (of_ℕ 0) lines)
      (money_sum ascii lines (codes "USD"))
money_sum-IsSum_example = money_sum-IsSum ascii lines (codes "USD") usd-IsCode

summed : money_sum ascii lines (codes "USD") ≡ ok (usd (dec (Int.pos 1550) 2))
unfolding money_sum Money.zero_money make add Money.assert_same Decimal.add
summed = refl

rounded : quantize ascii (usd (dec (Int.negsuc 2674) 3)) ≡ ok (usd (dec (Int.negsuc 267) 2))
unfolding quantize Decimal.quantize_half_up make
rounded = refl

money_quantize-IsRounded_example :
    IsRoundedHalfUp
      (currency_exponent ascii (codes "USD"))
      (dec (Int.negsuc 2674) 3)
      (dec (Int.negsuc 267) 2)
money_quantize-IsRounded_example =
    money_quantize-IsRounded ascii (usd (dec (Int.negsuc 2674) 3)) (usd (dec (Int.negsuc 267) 2))
      rounded

abbrev published : Decimal → ℕ → FxRate
published r day = record { base = codes "EUR"; quote = codes "USD"; rate = r; as_of = day }

abbrev january : FxRate
january = published (dec (Int.pos 108) 2) 10

abbrev march : FxRate
march = published (dec (Int.pos 112) 2) 70

abbrev empty_table : FxRateTable
empty_table = record { base_currency = codes "USD"; rates = [] }

-- In February the rate of January is in force.
direct-IsLookup_example :
    (chosen : Option FxRate) × (direct
        (add_many ascii (march ∷ january ∷ []) empty_table)
        (codes "EUR")
        (codes "USD")
        50
      ≡ rate_value chosen)
    × IsLookup
        (keep (is_between ascii (codes "EUR") (codes "USD")) (march ∷ january ∷ [])
          ++ bucket_of empty_table.rates (codes "EUR") (codes "USD"))
        50
        chosen
direct-IsLookup_example =
    direct-IsLookup ascii (march ∷ january ∷ []) empty_table (codes "EUR") (codes "USD") 50 tt

february : direct_rate (january ∷ march ∷ []) 50 ≡ some january
unfolding direct_rate
february = refl
