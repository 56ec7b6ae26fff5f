-- ===== src/Crypto/Expand.antt =====
-- The key stream: as long as asked for, and refused beyond 255 blocks.
use procurement_automation.Prelude.{
  ℕ, zero, suc, ◌+◌, ◌-◌, ◌*◌, ◌<◌, ◌≤◌, ◌≡◌, refl, leb, Option, none, some, [], ◌∷◌, ◌++◌, length,
  true, false, length-append, take, arith, Bool-cases, inl, inr,
}
use procurement_automation.Crypto.{Bytes, Primitives, expand_from, expand}

pub length-take_enough : (n : ℕ) (s : Bytes) → n ≤ length s → length (take n s) ≡ n
length-take_enough zero s h = refl
length-take_enough (suc n) [] h = absurd (omega arith)
length-take_enough (suc n) (x ∷ s) h = omega (arith, length-take_enough n s)

module _ (lib : Primitives) (size : (k m : Bytes) → length (lib.hmac k m) ≡ 32) where
  abbrev IsStream : ℕ → Option Bytes → Type 0
  IsStream wanted o = (out : Bytes) × (o ≡ some out) × (length out ≡ wanted)

  longer : (out key message : Bytes) → length (out ++ lib.hmac key message) ≡ length out + 32
  longer out key message = omega (arith, length-append out (lib.hmac key message), size key message)

  expand_from-some :
      (key info : Bytes) (left : ℕ) (block out : Bytes) (wanted : ℕ)
      → wanted ≤ length out + 32 * left
      → IsStream wanted (expand_from lib key info left block out wanted)
  unfolding expand_from
  expand_from-some key info zero block out wanted h =
      let enough : leb wanted (length out) ≡ true = ground arith in
      rw enough (take wanted out, refl, length-take_enough wanted out (omega arith))
  expand_from-some key info (suc left) block out wanted h =
      let message = block ++ (info ++ (255 - left) ∷ []) in
      let next = lib.hmac key message in
      elim (Bool-cases (leb wanted (length out))) [
        | inl e ↦ rw e (take wanted out, refl, length-take_enough wanted out (ground arith))
        | inr e ↦ rw e (
            expand_from-some key info left next (out ++ next) wanted
              (omega (arith, longer out key message)))
      ]

  expand_from-none :
      (key info : Bytes) (left : ℕ) (block out : Bytes) (wanted : ℕ)
      → length out + 32 * left < wanted
      → expand_from lib key info left block out wanted ≡ none
  unfolding expand_from
  expand_from-none key info zero block out wanted h =
      let short : leb wanted (length out) ≡ false = ground arith in rw short refl
  expand_from-none key info (suc left) block out wanted h =
      let message = block ++ (info ++ (255 - left) ∷ []) in
      let next = lib.hmac key message in
      let short : leb wanted (length out) ≡ false = ground arith in
      rw short (
        expand_from-none key info left next (out ++ next) wanted
          (omega (arith, longer out key message)))

  pub expand-some :
      (key info : Bytes) (wanted : ℕ)
      → wanted ≤ 8160
      → (out : Bytes) × (expand lib key info wanted ≡ some out) × (length out ≡ wanted)
  unfolding expand
  expand-some key info wanted h = expand_from-some key info 255 [] [] wanted (omega arith)

  pub expand-none :
      (key info : Bytes) (wanted : ℕ) → 8160 < wanted → expand lib key info wanted ≡ none
  unfolding expand
  expand-none key info wanted h = expand_from-none key info 255 [] [] wanted (omega arith)
