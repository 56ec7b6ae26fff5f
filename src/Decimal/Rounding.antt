-- ===== src/Decimal/Rounding.antt =====
-- Rounding to a number of places is to the nearest.
use native.Mathlib.Nat.{div-add-mod', mod-lt}
use procurement_automation.Prelude.{
  ℕ, zero, suc, ◌+◌, ◌-◌, ◌*◌, ◌/◌, ◌%◌, ◌^◌, ◌≤◌, ◌<◌, ◌==◌, leb, ltb, if◌then◌else◌, ◌≡◌, refl,
  some, arith, Bool-cases, leb→le, inl, inr,
}
use procurement_automation.Int.{ℤ, pos, negsuc}
use procurement_automation.Decimal.Digits.{digits, div_half_even, div_half_up}
use procurement_automation.Decimal.Order.{pow_pos}
use procurement_automation.Decimal.{
  Decimal, magnitude, signed, pos_part, neg_part, precision, quantize_by, quantize_half_up,
  quantize,
}

-- `q` is n / d to the nearest; a tie may go either way.
abbrev pub IsNearest : ℕ → ℕ → ℕ → Type 0
IsNearest n d q = (2 * (q * d) ≤ 2 * n + d) × (2 * n ≤ 2 * (q * d) + d)

-- `q` is n / d to the nearest, and the larger one at a tie.
abbrev pub IsHalfUp : ℕ → ℕ → ℕ → Type 0
IsHalfUp n d q = (2 * (q * d) ≤ 2 * n + d) × (2 * n < 2 * (q * d) + d)

module _ (n d : ℕ) (h : 0 < d) where
  rounded_down : 2 * (n % d) ≤ d → IsNearest n d (n / d)
  rounded_down small = omega (arith, div-add-mod' n d)

  rounded_up : d ≤ 2 * (n % d) → IsNearest n d (n / d + 1)
  rounded_up large = omega (arith, div-add-mod' n d, mod-lt n h)

  div_half_even-IsNearest : IsNearest n d (div_half_even n d)
  unfolding div_half_even
  div_half_even-IsNearest = elim (Bool-cases (ltb (2 * (n % d)) d)) [
    | inl e ↦ rw e (rounded_down (ground arith))
    | inr e ↦ elim (Bool-cases (ltb d (2 * (n % d)))) [
      | inl f ↦ rw (e, f) (rounded_up (ground arith))
      | inr f ↦ elim (Bool-cases (n / d % 2 == 0)) [
        | inl g ↦ rw (e, f, g) (rounded_down (ground arith))
        | inr g ↦ rw (e, f, g) (rounded_up (ground arith))
      ]
    ]
  ]

  rounds_down : 2 * (n % d) < d → IsHalfUp n d (n / d)
  rounds_down small = omega (arith, div-add-mod' n d)

  rounds_up : d ≤ 2 * (n % d) → IsHalfUp n d (n / d + 1)
  rounds_up large = omega (arith, div-add-mod' n d, mod-lt n h)

  div_half_up-IsHalfUp : IsHalfUp n d (div_half_up n d)
  unfolding div_half_up
  div_half_up-IsHalfUp = elim (Bool-cases (ltb (2 * (n % d)) d)) [
    | inl e ↦ rw e (rounds_down (ground arith))
    | inr e ↦ rw e (rounds_up (ground arith))
  ]

magnitude-signed : (c : ℤ) (n : ℕ) → magnitude (signed c n) ≡ n
magnitude-signed (pos _) n = refl
magnitude-signed (negsuc _) zero = refl
magnitude-signed (negsuc _) (suc n) = refl

some-injective : {a b : Decimal} → some a ≡ some b → a ≡ b
some-injective h = cc

-- `b` is `a` at the given number of places: the integer of its digits is the nearest to the
-- magnitude of `a` at that scale, and there are at most 28 digits.
pub record IsRounded (places : ℕ) (a b : Decimal) : Type 0 where
  pub scale : b.scale ≡ places
  pub nearest :
      IsNearest
        (magnitude a.coefficient * 10 ^ (places - a.scale))
        (10 ^ (a.scale - places))
        (magnitude b.coefficient)
  pub digits_fit : digits (magnitude b.coefficient) ≤ precision

module _ (round : ℕ → ℕ → ℕ) (near : (n d : ℕ) → 0 < d → IsNearest n d (round n d)) where
  kept-IsNearest :
      (n s places : ℕ)
      → IsNearest
          (n * 10 ^ (places - s))
          (10 ^ (s - places))
          (if leb s places then n * 10 ^ (places - s) else round n (10 ^ (s - places)))
  kept-IsNearest n s places = elim (Bool-cases (leb s places)) [
    | inl e ↦
        let none_left : s - places ≡ 0 = omega (arith, leb→le s places e) in
        rw (e, none_left) (omega arith)
    | inr e ↦
        let none_added : places - s ≡ 0 = ground arith in
        let whole : n * 10 ^ 0 ≡ n = omega arith in
        rw (e, none_added, whole) (near n (10 ^ (s - places)) (pow_pos (s - places)))
  ]

  quantize_by-IsRounded :
      (places : ℕ) (a b : Decimal) → quantize_by round places a ≡ some b → IsRounded places a b
  quantize_by-IsRounded places a b h =
      let n = magnitude a.coefficient in
      let kept =
        if leb a.scale places
        then n * 10 ^ (places - a.scale)
        else round n (10 ^ (a.scale - places)) in
      elim (Bool-cases (ltb precision (digits kept))) [
        | inl e ↦ cc (rw e at h)
        | inr e ↦ rw (← some-injective (rw e at h)) (record {
          scale = refl;
          nearest = rw (magnitude-signed a.coefficient kept) (kept-IsNearest n a.scale places);
          digits_fit = rw (magnitude-signed a.coefficient kept) (ground arith);
        })
      ]

-- `b` is `a` at the given number of places, half up: the integer of its digits is `a`'s at that
-- scale to the nearest, a tie away from 0, on either side of 0, and there are at most 28 digits.
pub record IsRoundedHalfUp (places : ℕ) (a b : Decimal) : Type 0 where
  pub scale : b.scale ≡ places
  pub positive :
      IsHalfUp
        (pos_part a.coefficient * 10 ^ (places - a.scale))
        (10 ^ (a.scale - places))
        (pos_part b.coefficient)
  pub negative :
      IsHalfUp
        (neg_part a.coefficient * 10 ^ (places - a.scale))
        (10 ^ (a.scale - places))
        (neg_part b.coefficient)
  pub digits_fit : digits (magnitude b.coefficient) ≤ precision

kept-IsHalfUp :
    (n s places : ℕ)
    → IsHalfUp
        (n * 10 ^ (places - s))
        (10 ^ (s - places))
        (if leb s places then n * 10 ^ (places - s) else div_half_up n (10 ^ (s - places)))
kept-IsHalfUp n s places = elim (Bool-cases (leb s places)) [
  | inl e ↦
      let none_left : s - places ≡ 0 = omega (arith, leb→le s places e) in
      rw (e, none_left) (omega arith)
  | inr e ↦
      let none_added : places - s ≡ 0 = ground arith in
      let whole : n * 10 ^ 0 ≡ n = omega arith in
      rw (e, none_added, whole) (div_half_up-IsHalfUp n (10 ^ (s - places)) (pow_pos (s - places)))
]

zero-IsHalfUp : (m d : ℕ) → 0 < d → IsHalfUp (0 * m) d 0
zero-IsHalfUp m d h = omega arith

-- The parts of a number that has the sign of `c`.
signed-IsHalfUp :
    (c : ℤ) (m d q : ℕ)
    → 0 < d
    → IsHalfUp (magnitude c * m) d q
    → IsHalfUp (pos_part c * m) d (pos_part (signed c q))
      × IsHalfUp (neg_part c * m) d (neg_part (signed c q))
signed-IsHalfUp (pos n) m d q h near = (near, zero-IsHalfUp m d h)
signed-IsHalfUp (negsuc n) m d zero h near = (zero-IsHalfUp m d h, near)
signed-IsHalfUp (negsuc n) m d (suc q) h near = (zero-IsHalfUp m d h, near)

-- Rounding half up to a number of places, which the amounts of money go through, gives that many
-- places, the digits of the exact number rounded half away from 0, and at most 28 digits, if the
-- result has room in 28 digits.
pub quantize_half_up-IsRoundedHalfUp :
    (places : ℕ) (a b : Decimal) → quantize_half_up places a ≡ some b → IsRoundedHalfUp places a b
unfolding quantize_half_up
quantize_half_up-IsRoundedHalfUp places a b h =
    let kept =
      if leb a.scale places
      then magnitude a.coefficient * 10 ^ (places - a.scale)
      else div_half_up (magnitude a.coefficient) (10 ^ (a.scale - places)) in
    let (positive, negative) =
      signed-IsHalfUp a.coefficient (10 ^ (places - a.scale)) (10 ^ (a.scale - places)) kept
        (pow_pos (a.scale - places)) (kept-IsHalfUp (magnitude a.coefficient) a.scale places) in
    elim (Bool-cases (ltb precision (digits kept))) [
      | inl e ↦ cc (rw e at h)
      | inr e ↦ rw (← some-injective (rw e at h)) (record {
        scale = refl;
        positive = positive;
        negative = negative;
        digits_fit = rw (magnitude-signed a.coefficient kept) (ground arith);
      })
    ]

-- Rounding half to even, which percentages go through, is to the nearest.
pub quantize-IsRounded :
    (places : ℕ) (a b : Decimal) → quantize places a ≡ some b → IsRounded places a b
unfolding quantize
quantize-IsRounded = quantize_by-IsRounded div_half_even div_half_even-IsNearest
