-- ===== src/Crypto.antt =====
-- The envelope of a sealed bid (procureguard/security/crypto.py): `LocalEnvelopeEncryptor` and the
-- cipher that `KmsEnvelopeEncryptor` uses under its data key. HMAC-SHA256 and base64 are parameters.
pub mod Xor
pub mod Expand
pub mod Envelope
pub mod RoundTrip
use procurement_automation.Prelude.{
  ℕ, zero, suc, ◌+◌, ◌-◌, ◌*◌, ◌/◌, ◌%◌, leb, ltb, Bool, not, if◌then◌else◌, Option, none, some,
  List, [], ◌∷◌, ◌++◌, String, take, length,
}
use procurement_automation.Prelude.Text.{codes, eq_codes}

abbrev pub Bytes : Type 0
Bytes = List ℕ

-- `hmac.new(key, message, sha256).digest()`, and `base64` with `none` for its exception.
pub record Primitives : Type 0 where
  pub hmac : Bytes → Bytes → Bytes
  pub b64encode : Bytes → String
  pub b64decode : String → Option Bytes

-- `a ^ b` on the given number of bits.
unfoldable pub xor : ℕ → ℕ → ℕ → ℕ
xor zero a b = 0
xor (suc k) a b = (a + b) % 2 + 2 * xor k (a / 2) (b / 2)

-- `bytes(a ^ b for a, b in zip(s, t))`
unfoldable pub xor_bytes : Bytes → Bytes → Bytes
unfolding xor
xor_bytes [] t = []
xor_bytes (a ∷ s) [] = []
xor_bytes (a ∷ s) (b ∷ t) = xor 8 a b ∷ xor_bytes s t

-- `s[n:]`
unfoldable pub drop : ℕ → Bytes → Bytes
drop zero s = s
drop (suc n) [] = []
drop (suc n) (_ ∷ s) = drop n s

-- `struct.pack(">I", n)`
abbrev pub pack_be32 : ℕ → Bytes
pack_be32 n = n / 16_777_216 % 256 ∷ n / 65_536 % 256 ∷ n / 256 % 256 ∷ n % 256 ∷ []

module _ (lib : Primitives) where
  -- The loop of `_expand` and `_derive`. The counter is 256 less the number of values it has left;
  -- `none` is the `ValueError` of `bytes([256])`.
  unfoldable pub expand_from : Bytes → Bytes → ℕ → Bytes → Bytes → ℕ → Option Bytes
  expand_from key info zero block out wanted =
      if leb wanted (length out) then some (take wanted out) else none
  expand_from key info (suc left) block out wanted =
      let next = lib.hmac key (block ++ (info ++ (255 - left) ∷ [])) in
      let rest = expand_from key info left next (out ++ next) wanted in
      if leb wanted (length out) then some (take wanted out) else rest

  -- `_expand`
  unfoldable pub expand : Bytes → Bytes → ℕ → Option Bytes
  unfolding expand_from
  expand key info wanted = expand_from key info 255 [] [] wanted

  -- `LocalEnvelopeEncryptor._derive`
  unfoldable pub derive : Bytes → Bytes → Bytes → ℕ → Option Bytes
  unfolding expand
  derive master salt info wanted = expand (lib.hmac salt master) info wanted
