-- ===== src/Quotation/Payload.antt =====
-- The sealed payload as text (procureguard/security/crypto.py): `seal_payload`, `unseal_payload`.
use procurement_automation.Prelude.{Bool, Option, String}
use procurement_automation.Prelude.Text.{Unicode}
use procurement_automation.Errors.{Error, Result, err}
use procurement_automation.Errors.Chain.{found}
use procurement_automation.Crypto.{Bytes, Primitives}
use procurement_automation.Crypto.Envelope
use procurement_automation.Crypto.Envelope.{Opened, LocalEnvelopeEncryptor}
use procurement_automation.Quotation.Seal.{Commercial}

-- `json.dumps` and `json.loads` of the payload, and `_context_bytes` of case and quotation.
pub record Codec : Type 0 where
  pub dumps : Commercial → Bytes
  pub loads : Bytes → Option Commercial
  pub context : String → String → Bytes

-- What the service takes from its context: the libraries, the local encryptor and a setting.
pub record Service : Type 0 where
  pub lib : Primitives
  pub codec : Codec
  pub encryptor : LocalEnvelopeEncryptor
  pub sealed_bid_enabled : Bool
  pub unicode : Unicode

-- `seal_payload`
unfoldable pub seal_payload :
    Service → Bytes → Commercial → String → String → Result (String × String)
seal_payload s nonce payload case_id quotation_ref = found Error.builtin (
    Envelope.encrypt s.lib s.encryptor nonce (s.codec.dumps payload)
      (s.codec.context case_id quotation_ref))

abbrev pub load : Service → Opened → Result Commercial
load s (Opened.opened blob) = found Error.builtin (s.codec.loads blob)
load s Opened.refused = err Error.validation
load s Opened.value_error = err Error.builtin

-- `unseal_payload`
unfoldable pub unseal_payload : Service → String → String → String → Result Commercial
unseal_payload s ciphertext case_id quotation_ref =
    load s (Envelope.decrypt s.lib s.encryptor ciphertext (s.codec.context case_id quotation_ref))
