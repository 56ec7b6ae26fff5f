-- ===== src/Money/Laws.antt =====
-- Amounts in different currencies do not combine, and a sum is defined exactly for one currency.
use procurement_automation.Prelude.{
  ◌≡◌, refl, Bool, true, false, not, ◌&&◌, ◌||◌, ◌==◌, List, [], ◌∷◌, length, is_empty, Bool-cases,
  Option-cases, inl, inr, sym, ap,
}
use procurement_automation.Prelude.Text.{Codes, Unicode, strip, upper, eq_codes}
use procurement_automation.Errors.{Error, Result, ok, err}
use procurement_automation.Decimal
use procurement_automation.Decimal.{Decimal}
use procurement_automation.Decimal.Rounding.{IsRoundedHalfUp, quantize_half_up-IsRoundedHalfUp}
use procurement_automation.Money.{
  Money, quantize, currency_exponent, make, assert_same, add, sub, lt, le, pct_of, zero_money,
  sum_from, money_sum, all_alpha,
}

-- Every operation that combines two amounts refuses amounts of different currencies, whatever
-- they are.
pub cross_currency_refused :
    (u : Unicode) (a b : Money)
    → eq_codes a.currency b.currency ≡ false
    → (add u a b ≡ err Error.currency_conversion)
      × (sub u a b ≡ err Error.currency_conversion)
      × (lt a b ≡ err Error.currency_conversion)
      × (le a b ≡ err Error.currency_conversion)
      × (pct_of a b ≡ err Error.currency_conversion)
unfolding add sub lt le pct_of assert_same
cross_currency_refused u a b h = rw h (refl, refl, refl, refl, refl)

-- The constructor accepts the code and leaves it as it is.
abbrev pub IsCode : Unicode → Codes → Type 0
IsCode u c = (a : Decimal) → make u a c ≡ ok (record { amount = a; currency = c })

abbrev is_ok : Result Money → Bool
is_ok (ok _) = true
is_ok (err _) = false

-- All amounts are in the currency.
abbrev pub all_in : Codes → List Money → Bool
all_in c [] = true
all_in c (m ∷ rest) = eq_codes c m.currency && all_in c rest

-- The sum from the left.
abbrev pub total : Decimal → List Money → Decimal
total acc [] = acc
total acc (m ∷ rest) = total (Decimal.add acc m.amount) rest

abbrev pub IsSum : Bool → Codes → Decimal → Result Money → Type 0
IsSum true c d r = r ≡ ok (record { amount = d; currency = c })
IsSum false c d r = r ≡ err Error.currency_conversion

sum_from-IsSum :
    (u : Unicode) (c : Codes) (d : Decimal) (items : List Money)
    → IsCode u c
    → IsSum
        (all_in c items)
        c
        (total d items)
        (sum_from u (record { amount = d; currency = c }) items)
unfolding sum_from add assert_same
sum_from-IsSum u c d [] code = refl
sum_from-IsSum u c d (m ∷ rest) code = elim (Bool-cases (eq_codes c m.currency)) [
  | inl e ↦
      rw (e, code (Decimal.add d m.amount)) (sum_from-IsSum u c (Decimal.add d m.amount) rest code)
  | inr e ↦ rw e refl
]

-- In a currency that the constructor accepts, `money_sum` gives the sum of the amounts, added from
-- the left, if all are in that currency, and otherwise raises a currency error.
pub money_sum-IsSum :
    (u : Unicode) (items : List Money) (c : Codes)
    → IsCode u c
    → IsSum (all_in c items) c (total (Decimal.of_ℕ 0) items) (money_sum u items c)
unfolding money_sum zero_money
money_sum-IsSum u items c code =
    rw (code (Decimal.of_ℕ 0)) (sum_from-IsSum u c (Decimal.of_ℕ 0) items code)

money-injective : {a b : Money} → ok a ≡ ok b → a ≡ b
money-injective h = cc

make_amount : (u : Unicode) (a : Decimal) (c : Codes) (m : Money) → make u a c ≡ ok m → m.amount ≡ a
unfolding make
make_amount u a c m h =
    let code = upper u (strip c) in
    elim (Bool-cases (not (length code == 3) || not (all_alpha u code && not (is_empty code)))) [
      | inl e ↦ cc (rw e at h)
      | inr e ↦ ap Money.amount (sym (money-injective (rw e at h)))
    ]

-- The amount that `quantize` gives an amount of money has as many places as its currency has and 28
-- digits at most, is 0 or has the sign of the exact amount, and is the nearest one at that number of
-- places, of two the one that is further from 0.
pub money_quantize-IsRounded :
    (u : Unicode) (a m : Money)
    → quantize u a ≡ ok m
    → IsRoundedHalfUp (currency_exponent u a.currency) a.amount m.amount
unfolding quantize
money_quantize-IsRounded u a m h =
    let places = currency_exponent u a.currency in
    elim (Option-cases (Decimal.quantize_half_up places a.amount)) [
      | inl e ↦ cc (rw e at h)
      | inr (q, e) ↦
          rw (make_amount u q a.currency m (rw e at h))
            (quantize_half_up-IsRoundedHalfUp places a.amount q e)
    ]
