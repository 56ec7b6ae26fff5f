-- ===== src/Decimal/Sizes.antt =====
-- `digits` counts decimal digits, so its fuel is enough.
use native.Mathlib.Nat.{pow-suc}
use procurement_automation.Prelude.{
  ℕ, zero, suc, ◌*◌, ◌/◌, ◌^◌, ◌≤◌, ◌<◌, ltb, arith, ◌≡◌, Bool, true, false, ap, Bool-cases, inl,
  inr,
}
use procurement_automation.Decimal.Digits.{digits_from, digits}

digits_from_step :
    (fuel n : ℕ) (small : Bool)
    → ltb n 10 ≡ small
    → digits_from (suc fuel) n ≡ elim small [ true ↦ 1 | false ↦ suc (digits_from fuel (n / 10)) ]
unfolding digits_from
digits_from_step fuel n small e =
    ap (λ (b : Bool). elim b [ true ↦ 1 | false ↦ suc (digits_from fuel (n / 10)) ]) e

digits_from_bounds :
    (fuel n : ℕ)
    → n ≤ fuel
    → (n < 10 ^ digits_from fuel n) × (0 < n → 10 ^ digits_from fuel n ≤ 10 * n)
unfolding digits_from
digits_from_bounds zero n h = (omega arith, λ p. omega arith)
digits_from_bounds (suc fuel) n h = elim (Bool-cases (ltb n 10)) [
  | inl e ↦ rw (digits_from_step fuel n true e) (ground arith, λ p. omega arith)
  | inr e ↦
      let (above, below) = digits_from_bounds fuel (n / 10) (ground arith) in
      let grown = pow-suc 10 (digits_from fuel (n / 10)) in
      rw (digits_from_step fuel n false e)
        (omega (arith, grown, above), λ p. omega (arith, grown, below (ground arith)))
]

-- A number lies below 10 to its number of digits, and, if it is not 0, not below a tenth of that.
pub digits_bounds : (n : ℕ) → (n < 10 ^ digits n) × (0 < n → 10 ^ digits n ≤ 10 * n)
unfolding digits
digits_bounds n = digits_from_bounds n n (omega arith)
