-- ===== src/Decimal/Order.antt =====
-- The order of decimals is total and transitive, by cross multiplication.
use procurement_automation.Prelude.{
  ℕ, ◌+◌, ◌*◌, ◌^◌, ◌≤◌, ◌<◌, ◌≡◌, ◌⊎◌, true, not, arith, leb→le, le→leb,
}
use native.Mathlib.Nat.{one-le-pow, mul-le-mul_left, le_of_mul-le-mul_left}
use procurement_automation.Int.{pos_part, neg_part}
use procurement_automation.Decimal.{Decimal, le, lt}

pub pow_pos : (k : ℕ) → 0 < 10 ^ k
pow_pos k = one-le-pow k 10 (omega arith)

-- If both sides agree on the middle term, the outer ones compare.
cross :
    (pa na pb nb pc nc x y z : ℕ)
    → 0 < y
    → pa * y + nb * x ≤ pb * x + na * y
    → pb * z + nc * y ≤ pc * y + nb * z
    → pa * z + nc * x ≤ pc * x + na * z
cross pa na pb nb pc nc x y z h p q =
    le_of_mul-le-mul_left {k = y} (omega (arith, mul-le-mul_left z p, mul-le-mul_left x q)) h

pub le_trans : (a b c : Decimal) → le a b ≡ true → le b c ≡ true → le a c ≡ true
unfolding le
le_trans a b c p q = le→leb _ _ (
    cross (pos_part a.coefficient) (neg_part a.coefficient) (pos_part b.coefficient)
      (neg_part b.coefficient) (pos_part c.coefficient) (neg_part c.coefficient) (10 ^ a.scale)
      (10 ^ b.scale) (10 ^ c.scale) (pow_pos b.scale) (leb→le _ _ p) (leb→le _ _ q))

pub not-lt : (a b : Decimal) → lt a b ≡ not (le b a)
unfolding le lt
not-lt a b = ground arith

pub le_total : (a b : Decimal) → (le a b ≡ true) ⊎ (le b a ≡ true)
unfolding le
le_total a b = ground arith

pub le_refl : (a : Decimal) → le a a ≡ true
unfolding le
le_refl a = ground arith
