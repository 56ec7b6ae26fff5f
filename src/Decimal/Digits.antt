-- ===== src/Decimal/Digits.antt =====
-- Digits and the two roundings of a quotient.
use procurement_automation.Prelude.{
  ℕ, zero, suc, ◌+◌, ◌*◌, ◌/◌, ◌%◌, ◌==◌, ltb, true, false, if◌then◌else◌,
}

-- The number of decimal digits, on fuel; `digits` gives enough.
unfoldable pub digits_from : ℕ → ℕ → ℕ
digits_from zero n = 1
digits_from (suc fuel) n = elim (ltb n 10) [ true ↦ 1 | false ↦ suc (digits_from fuel (n / 10)) ]

unfoldable pub digits : ℕ → ℕ
unfolding digits_from
digits n = digits_from n n

-- n / d to the nearest, ROUND_HALF_EVEN and ROUND_HALF_UP.
unfoldable pub div_half_even : ℕ → ℕ → ℕ
div_half_even n d =
    let q = n / d in
    let twice = 2 * (n % d) in
    if ltb twice d then q else if ltb d twice then q + 1 else if q % 2 == 0 then q else q + 1

unfoldable pub div_half_up : ℕ → ℕ → ℕ
div_half_up n d = if ltb (2 * (n % d)) d then n / d else n / d + 1
