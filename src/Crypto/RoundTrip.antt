-- ===== src/Crypto/RoundTrip.antt =====
-- What an envelope keeps, and what it is too small for.
use procurement_automation.Prelude.{
  ℕ, ◌<◌, ◌≤◌, ◌≡◌, refl, ap, ◌∙◌, ltb, leb, Bool, true, false, Bool-cases, inl, inr, none, some,
  [], ◌∷◌, ◌++◌, String, take, length, length-append, arith,
}
use procurement_automation.Prelude.Text.{codes, eq_codes_refl}
use procurement_automation.Crypto.{Bytes, Primitives, xor_bytes, drop, pack_be32, expand, derive}
use procurement_automation.Crypto.Xor.{AreBytes, xor_bytes_self}
use procurement_automation.Crypto.Expand.{expand-some, expand-none}
use procurement_automation.Crypto.Envelope.{
  Opened, LocalEnvelopeEncryptor, local_tag, encrypt, decrypt, open_local, open_decoded,
  aead_encrypt, aead_decrypt, read_with,
}

-- What is relied on: a digest of SHA-256 has 32 bytes, and base64 gives back what it took.
pub record AreLawful (lib : Primitives) : Type 0 where
  pub digest_size : (k m : Bytes) → length (lib.hmac k m) ≡ 32
  pub b64_returns : (b : Bytes) → lib.b64decode (lib.b64encode b) ≡ some b

take-append : (s t : Bytes) (n : ℕ) → length s ≡ n → take n (s ++ t) ≡ s
take-append [] t n h = rw (← h) refl
take-append (x ∷ s) t n h = rw (← h, take-append s t (length s) refl) refl

drop-append : (s t : Bytes) (n : ℕ) → length s ≡ n → drop n (s ++ t) ≡ t
unfolding drop
drop-append [] t n h = rw (← h) refl
drop-append (x ∷ s) t n h = rw (← h, drop-append s t (length s) refl) refl

append_assoc : (s t u : Bytes) → s ++ (t ++ u) ≡ (s ++ t) ++ u
append_assoc [] t u = refl
append_assoc (x ∷ s) t u = rw (append_assoc s t u) refl

length-xor_bytes : (s t : Bytes) → length s ≡ length t → length (xor_bytes s t) ≡ length s
unfolding xor_bytes
length-xor_bytes [] t h = refl
length-xor_bytes (a ∷ s) [] h = absurd (omega arith)
length-xor_bytes (a ∷ s) (b ∷ t) h = omega (arith, length-xor_bytes s t (omega arith))

-- The three parts of a blob are read back.
module _ (nonce tag ciphertext : Bytes) (hn : length nonce ≡ 16) (ht : length tag ≡ 32) where
  nonce_back : take 16 (nonce ++ (tag ++ ciphertext)) ≡ nonce
  nonce_back = take-append nonce (tag ++ ciphertext) 16 hn

  tag_back : take 32 (drop 16 (nonce ++ (tag ++ ciphertext))) ≡ tag
  tag_back = rw (drop-append nonce (tag ++ ciphertext) 16 hn) (take-append tag ciphertext 32 ht)

  ciphertext_back : drop 48 (nonce ++ (tag ++ ciphertext)) ≡ ciphertext
  ciphertext_back =
      rw (append_assoc nonce tag ciphertext)
        (drop-append (nonce ++ tag) ciphertext 48 (omega (arith, length-append nonce tag, hn, ht)))

  long_enough : ltb (length (nonce ++ (tag ++ ciphertext))) 48 ≡ false
  long_enough =
      ground (arith, length-append nonce (tag ++ ciphertext), length-append tag ciphertext, hn, ht)

module _ (lib : Primitives) (laws : AreLawful lib) (nonce : Bytes) (hn : length nonce ≡ 16)
    (plaintext aad : Bytes) (hp : AreBytes plaintext) where
  read_back :
      (keystream : Bytes)
      → length keystream ≡ length plaintext
      → read_with (xor_bytes plaintext keystream) (some keystream) ≡ Opened.opened plaintext
  read_back keystream h = rw (xor_bytes_self plaintext keystream hp (omega (arith, h))) refl

  module _ (e : LocalEnvelopeEncryptor) where
    derive-some :
        (info : Bytes) (n : ℕ)
        → n ≤ 8160
        → (out : Bytes) × (derive lib e.master nonce info n ≡ some out) × (length out ≡ n)
    unfolding derive
    derive-some info n h = expand-some lib laws.digest_size (lib.hmac nonce e.master) info n h

    derive-none : (info : Bytes) (n : ℕ) → 8160 < n → derive lib e.master nonce info n ≡ none
    unfolding derive
    derive-none info n h = expand-none lib laws.digest_size (lib.hmac nonce e.master) info n h

    encrypt-long : 8160 < length plaintext → encrypt lib e nonce plaintext aad ≡ none
    unfolding encrypt
    encrypt-long h = rw (derive-none (codes "stream" ++ aad) (length plaintext) h) refl

    open_back :
        (keystream mac_key : Bytes)
        → derive lib e.master nonce (codes "stream" ++ aad) (length plaintext) ≡ some keystream
        → length keystream ≡ length plaintext
        → derive lib e.master nonce (codes "mac" ++ aad) 32 ≡ some mac_key
        → let ciphertext = xor_bytes plaintext keystream in
          open_local lib e (nonce ++ (local_tag lib mac_key nonce ciphertext ++ ciphertext)) aad
          ≡ Opened.opened plaintext
    open_back keystream mac_key hs hl hm =
        let ciphertext = xor_bytes plaintext keystream in
        let tag = local_tag lib mac_key nonce ciphertext in
        let ht : length tag ≡ 32 =
          laws.digest_size mac_key (nonce ++ (pack_be32 (length ciphertext) ++ ciphertext)) in
        let same : length ciphertext ≡ length plaintext =
          length-xor_bytes plaintext keystream (omega (arith, hl)) in
        rw
          (
            long_enough nonce tag ciphertext hn ht,
            nonce_back nonce tag ciphertext hn ht,
            tag_back nonce tag ciphertext hn ht,
            ciphertext_back nonce tag ciphertext hn ht,
            hm,
            eq_codes_refl tag,
            same,
            hs,
          )
          (read_back keystream hl)

    decrypt-b64encode :
        (blob : Bytes) → decrypt lib e (lib.b64encode blob) aad ≡ open_local lib e blob aad
    unfolding decrypt
    decrypt-b64encode blob = ap (open_decoded lib e aad) (laws.b64_returns blob)

    pub encrypt-decrypt :
        length plaintext ≤ 8160
        → (envelope : String × String) × (encrypt lib e nonce plaintext aad ≡ some envelope)
          × (decrypt lib e envelope.0 aad ≡ Opened.opened plaintext)
    unfolding encrypt
    encrypt-decrypt h =
        let (keystream, hs, hl) = derive-some (codes "stream" ++ aad) (length plaintext) h in
        let (mac_key, hm, _) = derive-some (codes "mac" ++ aad) 32 (omega arith) in
        let ciphertext = xor_bytes plaintext keystream in
        let blob = nonce ++ (local_tag lib mac_key nonce ciphertext ++ ciphertext) in
        (
          (lib.b64encode blob, e.key_reference),
          rw (hs, hm) refl,
          decrypt-b64encode blob ∙ open_back keystream mac_key hs hl hm,
        )

  module _ (key : Bytes) where
    aead_encrypt-long : 8160 < length plaintext → aead_encrypt lib key nonce plaintext aad ≡ none
    unfolding aead_encrypt
    aead_encrypt-long h =
        rw
          (expand-none lib laws.digest_size key (nonce ++ (codes "stream" ++ aad))
            (length plaintext) h)
          refl

    aead_back :
        (keystream mac_key : Bytes)
        → expand lib key (nonce ++ (codes "stream" ++ aad)) (length plaintext) ≡ some keystream
        → length keystream ≡ length plaintext
        → expand lib key (nonce ++ (codes "mac" ++ aad)) 32 ≡ some mac_key
        → let ciphertext = xor_bytes plaintext keystream in
          aead_decrypt lib key (nonce ++ (lib.hmac mac_key (nonce ++ ciphertext) ++ ciphertext)) aad
          ≡ Opened.opened plaintext
    unfolding aead_decrypt
    aead_back keystream mac_key hs hl hm =
        let ciphertext = xor_bytes plaintext keystream in
        let tag = lib.hmac mac_key (nonce ++ ciphertext) in
        let ht : length tag ≡ 32 = laws.digest_size mac_key (nonce ++ ciphertext) in
        let same : length ciphertext ≡ length plaintext =
          length-xor_bytes plaintext keystream (omega (arith, hl)) in
        rw
          (
            nonce_back nonce tag ciphertext hn ht,
            tag_back nonce tag ciphertext hn ht,
            ciphertext_back nonce tag ciphertext hn ht,
            hm,
            eq_codes_refl tag,
            same,
            hs,
          )
          (read_back keystream hl)

    aead_encrypt-aead_decrypt :
        length plaintext ≤ 8160
        → (blob : Bytes) × (aead_encrypt lib key nonce plaintext aad ≡ some blob)
          × (aead_decrypt lib key blob aad ≡ Opened.opened plaintext)
    unfolding aead_encrypt
    aead_encrypt-aead_decrypt h =
        let (keystream, hs, hl) =
          expand-some lib laws.digest_size key (nonce ++ (codes "stream" ++ aad)) (length plaintext)
            h in
        let (mac_key, hm, _) =
          expand-some lib laws.digest_size key (nonce ++ (codes "mac" ++ aad)) 32 (omega arith) in
        let ciphertext = xor_bytes plaintext keystream in
        (
          nonce ++ (lib.hmac mac_key (nonce ++ ciphertext) ++ ciphertext),
          rw (hs, hm) refl,
          aead_back keystream mac_key hs hl hm,
        )

-- The local encryptor seals the payload, and opens what it sealed.
abbrev pub OpensLocal : Primitives → LocalEnvelopeEncryptor → Bytes → Bytes → Bytes → Type 0
OpensLocal lib e nonce plaintext aad =
    (envelope : String × String) × (encrypt lib e nonce plaintext aad ≡ some envelope)
    × (decrypt lib e envelope.0 aad ≡ Opened.opened plaintext)

-- So does the cipher under a data key.
abbrev pub OpensAead : Primitives → Bytes → Bytes → Bytes → Bytes → Type 0
OpensAead lib key nonce plaintext aad =
    (blob : Bytes) × (aead_encrypt lib key nonce plaintext aad ≡ some blob)
    × (aead_decrypt lib key blob aad ≡ Opened.opened plaintext)

-- What becomes of a payload, by whether it has at most 8,160 bytes.
abbrev pub SealsBy :
    Bool → Primitives → LocalEnvelopeEncryptor → Bytes → Bytes → Bytes → Bytes → Type 0
SealsBy true lib e key nonce plaintext aad =
    OpensLocal lib e nonce plaintext aad × OpensAead lib key nonce plaintext aad
SealsBy false lib e key nonce plaintext aad =
    (encrypt lib e nonce plaintext aad ≡ none) × (aead_encrypt lib key nonce plaintext aad ≡ none)

-- Under any key, with a nonce of 16 bytes, the local encryptor and the cipher under a data key of
-- KMS open what they sealed in the same context, for every payload of at most 8,160 bytes. A
-- longer payload is never sealed: the block counter of the key stream passes 255 and the call
-- raises.
pub sealed_round_trip :
    (lib : Primitives)
    → AreLawful lib
    → (e : LocalEnvelopeEncryptor) (key nonce plaintext aad : Bytes) → length nonce ≡ 16
    → AreBytes plaintext
    → SealsBy (leb (length plaintext) 8160) lib e key nonce plaintext aad
sealed_round_trip lib laws e key nonce plaintext aad hn hp =
    elim (Bool-cases (leb (length plaintext) 8160)) [
      | inl h ↦ rw h (
        encrypt-decrypt lib laws nonce hn plaintext aad hp e (ground arith),
        aead_encrypt-aead_decrypt lib laws nonce hn plaintext aad hp key (ground arith),
      )
      | inr h ↦ rw h (
        encrypt-long lib laws nonce hn plaintext aad hp e (ground arith),
        aead_encrypt-long lib laws nonce hn plaintext aad hp key (ground arith),
      )
    ]
