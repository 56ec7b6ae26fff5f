-- ===== src/Scenarios/Envelopes.antt =====
-- A toy digest and a unary text of bytes in place of SHA-256 and base64.
use Prim.Native.String.{String}
use procurement_automation.Prelude.{
  ℕ, zero, suc, ◌+◌, ◌*◌, ◌%◌, ◌≡◌, refl, ap, if◌then◌else◌, ◌==◌, none, some, [], ◌∷◌, ◌++◌,
  Option, arith,
}
use procurement_automation.Prelude.Text.{codes}
use procurement_automation.Crypto.{Bytes, Primitives}
use procurement_automation.Crypto.Envelope.{LocalEnvelopeEncryptor}
use procurement_automation.Crypto.RoundTrip.{AreLawful, OpensLocal, OpensAead, sealed_round_trip}

abbrev sum : Bytes → ℕ
sum [] = 0
sum (b ∷ s) = (b + 3 * sum s) % 256

abbrev pub eight : ℕ → Bytes → Bytes
eight x s = x ∷ x ∷ x ∷ x ∷ x ∷ x ∷ x ∷ x ∷ s

abbrev toy_hmac : Bytes → Bytes → Bytes
toy_hmac k m = eight (sum k) (eight (sum m) (eight (sum (k ++ m)) (eight 7 [])))

abbrev strokes : ℕ → String → String
strokes zero t = String.◌∷◌ "." t
strokes (suc n) t = String.◌∷◌ "|" (strokes n t)

abbrev toy_encode : Bytes → String
toy_encode [] = ""
toy_encode (b ∷ s) = strokes b (toy_encode s)

abbrev grow : Option Bytes → Option Bytes
grow (some (b ∷ s)) = some (suc b ∷ s)
grow _ = none

abbrev begin : Option Bytes → Option Bytes
begin (some s) = some (0 ∷ s)
begin none = none

abbrev count : Bytes → Option Bytes
count [] = some []
count (c ∷ s) = let rest = count s in if c == b'.' then begin rest else grow rest

abbrev toy_decode : String → Option Bytes
toy_decode t = count (codes t)

strokes_back :
    (n : ℕ) (t : String) (s : Bytes)
    → toy_decode t ≡ some s
    → toy_decode (strokes n t) ≡ some (n ∷ s)
strokes_back zero t s h = ap begin h
strokes_back (suc n) t s h = ap grow (strokes_back n t s h)

toy_returns : (b : Bytes) → toy_decode (toy_encode b) ≡ some b
toy_returns [] = refl
toy_returns (b ∷ s) = strokes_back b (toy_encode s) s (toy_returns s)

abbrev pub toy : Primitives
toy = record { hmac = toy_hmac; b64encode = toy_encode; b64decode = toy_decode }

pub toy-AreLawful : AreLawful toy
toy-AreLawful = record { digest_size = λ k m. refl; b64_returns = toy_returns }

abbrev pub local_key : LocalEnvelopeEncryptor
local_key = record { master = 1 ∷ 2 ∷ 3 ∷ []; key_reference = "local:1" }

sealed_round_trip_example :
    OpensLocal toy local_key (eight 5 (eight 6 [])) (codes "total 90") (codes "C1")
    × OpensAead toy (9 ∷ []) (eight 5 (eight 6 [])) (codes "total 90") (codes "C1")
sealed_round_trip_example =
    sealed_round_trip toy toy-AreLawful local_key (9 ∷ []) (eight 5 (eight 6 [])) (codes "total 90")
      (codes "C1") refl
      (
        omega arith,
        (
          omega arith,
          (
            omega arith,
            (omega arith, (omega arith, (omega arith, (omega arith, (omega arith, tt))))),
          ),
        ),
      )
