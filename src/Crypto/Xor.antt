-- ===== src/Crypto/Xor.antt =====
-- Exclusive or undoes itself.
use procurement_automation.Prelude.{
  ℕ, zero, suc, ◌+◌, ◌*◌, ◌/◌, ◌%◌, ◌^◌, ◌<◌, ◌≤◌, ◌≡◌, refl, [], ◌∷◌, length, All, arith,
}
use procurement_automation.Crypto.{Bytes, xor, xor_bytes}

-- Every element is a byte.
abbrev pub AreBytes : Bytes → Type 0
AreBytes s = All (λ b. b < 256) s

low_bit : (a b y : ℕ) → ((a + b) % 2 + 2 * y + b) % 2 ≡ a % 2
low_bit a b y = omega arith

high_bits : (a b y : ℕ) → ((a + b) % 2 + 2 * y) / 2 ≡ y
high_bits a b y = omega arith

xor_self : (k a b : ℕ) → a < 2 ^ k → xor k (xor k a b) b ≡ a
unfolding xor
xor_self zero a b h = omega arith
xor_self (suc k) a b h =
    let y = xor k (a / 2) (b / 2) in
    rw (low_bit a b y, high_bits a b y, xor_self k (a / 2) (b / 2) (omega arith)) (omega arith)

pub xor_bytes_self :
    (s t : Bytes) → AreBytes s → length s ≤ length t → xor_bytes (xor_bytes s t) t ≡ s
unfolding xor_bytes
xor_bytes_self [] t h n = refl
xor_bytes_self (a ∷ s) [] h n = absurd (omega arith)
xor_bytes_self (a ∷ s) (b ∷ t) (here, later) n =
    rw (xor_self 8 a b here, xor_bytes_self s t later (omega arith)) refl
