-- ===== src/Crypto/Envelope.antt =====
-- Encrypting and decrypting a sealed payload. The bytes of the encryption context are an argument.
use procurement_automation.Prelude.{
  ltb, not, if◌then◌else◌, Option, none, some, ◌++◌, String, take, length,
}
use procurement_automation.Prelude.Chain.{◌>>=◌}
use procurement_automation.Prelude.Text.{codes, eq_codes}
use procurement_automation.Crypto.{Bytes, Primitives, xor_bytes, drop, pack_be32, expand, derive}

-- What opening an envelope ends in: the plaintext, a `ValidationError`, or a `ValueError`.
pub data Opened : Type 0 where
  opened : Bytes → Opened
  refused value_error : Opened

-- `LocalEnvelopeEncryptor`: the digest of its key, and what names that key.
pub record LocalEnvelopeEncryptor : Type 0 where
  pub master : Bytes
  pub key_reference : String

-- The plaintext under the key stream, unless there is none.
abbrev pub read_with : Bytes → Option Bytes → Opened
read_with ciphertext none = Opened.value_error
read_with ciphertext (some keystream) = Opened.opened (xor_bytes ciphertext keystream)

module _ (lib : Primitives) where
  abbrev pub local_tag : Bytes → Bytes → Bytes → Bytes
  local_tag mac_key nonce ciphertext =
      lib.hmac mac_key (nonce ++ (pack_be32 (length ciphertext) ++ ciphertext))

  module _ (e : LocalEnvelopeEncryptor) where
    -- `LocalEnvelopeEncryptor.encrypt` with the nonce of `os.urandom(16)`; `none` is a `ValueError`.
    unfoldable pub encrypt : Bytes → Bytes → Bytes → Option (String × String)
    encrypt nonce plaintext aad = do
      keystream ← derive lib e.master nonce (codes "stream" ++ aad) (length plaintext)
      mac_key ← derive lib e.master nonce (codes "mac" ++ aad) 32
      let ciphertext = xor_bytes plaintext keystream in
          some (
            lib.b64encode (nonce ++ (local_tag mac_key nonce ciphertext ++ ciphertext)),
            e.key_reference,
          )

    abbrev pub check_local : Bytes → Bytes → Bytes → Bytes → Option Bytes → Opened
    check_local nonce tag ciphertext aad none = Opened.value_error
    check_local nonce tag ciphertext aad (some mac_key) =
        if not (eq_codes tag (local_tag mac_key nonce ciphertext))
        then Opened.refused
        else read_with ciphertext
            (derive lib e.master nonce (codes "stream" ++ aad) (length ciphertext))

    abbrev pub open_local : Bytes → Bytes → Opened
    open_local blob aad =
        let nonce = take 16 blob in
        if ltb (length blob) 48
        then Opened.refused
        else check_local nonce (take 32 (drop 16 blob)) (drop 48 blob) aad
            (derive lib e.master nonce (codes "mac" ++ aad) 32)

    abbrev pub open_decoded : Bytes → Option Bytes → Opened
    open_decoded aad none = Opened.refused
    open_decoded aad (some blob) = open_local blob aad

    -- `LocalEnvelopeEncryptor.decrypt`; it does not read the key reference.
    unfoldable pub decrypt : String → Bytes → Opened
    decrypt envelope aad = open_decoded aad (lib.b64decode envelope)

  -- `_aead_encrypt` with the nonce of `os.urandom(16)`
  unfoldable pub aead_encrypt : Bytes → Bytes → Bytes → Bytes → Option Bytes
  aead_encrypt key nonce plaintext aad = do
    keystream ← expand lib key (nonce ++ (codes "stream" ++ aad)) (length plaintext)
    mac_key ← expand lib key (nonce ++ (codes "mac" ++ aad)) 32
    let ciphertext = xor_bytes plaintext keystream in
        some (nonce ++ (lib.hmac mac_key (nonce ++ ciphertext) ++ ciphertext))

  abbrev pub check_aead : Bytes → Bytes → Bytes → Bytes → Bytes → Option Bytes → Opened
  check_aead key nonce tag ciphertext aad none = Opened.value_error
  check_aead key nonce tag ciphertext aad (some mac_key) =
      if not (eq_codes tag (lib.hmac mac_key (nonce ++ ciphertext)))
      then Opened.refused
      else read_with ciphertext
          (expand lib key (nonce ++ (codes "stream" ++ aad)) (length ciphertext))

  -- `_aead_decrypt`
  unfoldable pub aead_decrypt : Bytes → Bytes → Bytes → Opened
  aead_decrypt key blob aad =
      let nonce = take 16 blob in
      check_aead key nonce (take 32 (drop 16 blob)) (drop 48 blob) aad
        (expand lib key (nonce ++ (codes "mac" ++ aad)) 32)
