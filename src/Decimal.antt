-- ===== src/Decimal.antt =====
-- Python's `decimal.Decimal` under the default context: 28 significant digits, ROUND_HALF_EVEN.
-- A finite decimal is coefficient / 10 ^ scale. Python's positive exponents are written out as
-- zeros of the coefficient, which keeps the value. The limits of exponents, NaN and the
-- infinities are not modelled: `Decimal(str(x))` of the program's data is finite.
pub mod Digits
pub mod Order
pub mod Rounding
pub mod Sizes
use procurement_automation.Prelude.{
  ℕ, zero, suc, ◌+◌, ◌-◌, ◌*◌, ◌/◌, ◌%◌, ◌^◌, ◌==◌, ltb, leb, Bool, true, false, not, ◌&&◌, ◌||◌,
  if◌then◌else◌, Option, none, some,
}
use procurement_automation.Int.{ℤ, pos, negsuc, pos_part, neg_part, sub_ℕ, ◌+ℤ◌, ◌*ℤ◌}
use procurement_automation.Decimal.Digits.{digits, div_half_even, div_half_up}

pub record Decimal : Type 0 where
  pub coefficient : ℤ
  pub scale : ℕ

abbrev pub dec : ℤ → ℕ → Decimal
dec c s = record { coefficient = c; scale = s }

-- `Decimal(n)` of a natural number.
abbrev pub of_ℕ : ℕ → Decimal
of_ℕ n = dec (pos n) 0

abbrev pub precision : ℕ
precision = 28

-- The magnitude and the sign of an integer, and back.
abbrev pub magnitude : ℤ → ℕ
magnitude (pos n) = n
magnitude (negsuc n) = suc n

abbrev pub signed : ℤ → ℕ → ℤ
signed (pos _) n = pos n
signed (negsuc _) zero = pos 0
signed (negsuc _) (suc n) = negsuc n

-- coefficient / 10 ^ (scale - drop), also where `drop` passes the scale.
abbrev pub at_scale : ℤ → ℕ → ℕ → Decimal
at_scale c scale drop =
    if leb drop scale then dec c (scale - drop) else dec (c *ℤ pos (10 ^ (drop - scale))) 0

-- The context's rounding: more than 28 digits are rounded, half to even.
unfoldable pub fix : Decimal → Decimal
unfolding digits div_half_even ◌*ℤ◌
fix d =
    let n = magnitude d.coefficient in
    let drop = digits n - precision in
    if drop == 0
    then d
    else at_scale (signed d.coefficient (div_half_even n (10 ^ drop))) d.scale drop

-- `a + b`
unfoldable pub add : Decimal → Decimal → Decimal
unfolding fix ◌+ℤ◌ ◌*ℤ◌
add a b =
    let s = if leb a.scale b.scale then b.scale else a.scale in
    fix (
      dec (a.coefficient *ℤ pos (10 ^ (s - a.scale)) +ℤ b.coefficient *ℤ pos (10 ^ (s - b.scale)))
        s)

-- The number of the other sign.
unfoldable pub negate : Decimal → Decimal
negate a = record a { coefficient = sub_ℕ (neg_part a.coefficient) (pos_part a.coefficient) }

-- `a - b`
unfoldable pub sub : Decimal → Decimal → Decimal
unfolding add negate
sub a b = add a (negate b)

-- `a * b`
unfoldable pub mul : Decimal → Decimal → Decimal
unfolding fix ◌*ℤ◌
mul a b = fix (dec (a.coefficient *ℤ b.coefficient) (a.scale + b.scale))

-- A quotient that is not exact must not look like a tie when it is rounded.
abbrev sticky : ℕ → ℕ → ℕ
sticky q r = if not (r == 0) && q % 5 == 0 then q + 1 else q

-- `a / b`; `none` is `DivisionByZero`. The quotient is taken to 29 digits or more, then rounded.
unfoldable pub div : Decimal → Decimal → Option Decimal
unfolding fix digits ◌*ℤ◌
div a b =
    let n = magnitude a.coefficient in
    let d = magnitude b.coefficient in
    let wanted = digits d + precision + 1 in
    let up = wanted - digits n in
    let down = digits n - wanted in
    let q = sticky (n * 10 ^ up / (d * 10 ^ down)) (n * 10 ^ up % (d * 10 ^ down)) in
    if d == 0
    then none
    else some
        (fix (at_scale (signed (a.coefficient *ℤ b.coefficient) q) (a.scale + up) (b.scale + down)))

-- `a.quantize(Decimal(1).scaleb(-places), rounding)`; `none` is `InvalidOperation`.
abbrev pub quantize_by : (ℕ → ℕ → ℕ) → ℕ → Decimal → Option Decimal
quantize_by round places a =
    let n = magnitude a.coefficient in
    let kept =
      if leb a.scale places
      then n * 10 ^ (places - a.scale)
      else round n (10 ^ (a.scale - places)) in
    if ltb precision (digits kept) then none else some (dec (signed a.coefficient kept) places)

unfoldable pub quantize_half_up : ℕ → Decimal → Option Decimal
unfolding digits div_half_up
quantize_half_up = quantize_by div_half_up

unfoldable pub quantize : ℕ → Decimal → Option Decimal
unfolding digits div_half_even
quantize = quantize_by div_half_even

-- Comparisons are exact: both sides are brought to one scale.
abbrev upper_side : Decimal → Decimal → ℕ
upper_side a b = pos_part a.coefficient * 10 ^ b.scale + neg_part b.coefficient * 10 ^ a.scale

-- `a <= b`, `a < b` and `a == b`
unfoldable pub le : Decimal → Decimal → Bool
le a b = leb (upper_side a b) (upper_side b a)

unfoldable pub lt : Decimal → Decimal → Bool
lt a b = ltb (upper_side a b) (upper_side b a)

unfoldable pub eq : Decimal → Decimal → Bool
eq a b = upper_side a b == upper_side b a

abbrev pub zero_decimal : Decimal
zero_decimal = of_ℕ 0
