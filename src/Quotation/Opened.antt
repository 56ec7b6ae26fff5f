-- ===== src/Quotation/Opened.antt =====
-- What sealing and unsealing keep, and what they show.
use procurement_automation.Prelude.{ℕ, ◌≤◌, ◌≡◌, refl, true, some, [], String, All, length}
use procurement_automation.Errors.{ok}
use procurement_automation.Crypto.{Bytes}
use procurement_automation.Crypto.Xor.{AreBytes}
use procurement_automation.Crypto.RoundTrip.{AreLawful, encrypt-decrypt}
use procurement_automation.Quotation.{ParsedQuotation, Quotation}
use procurement_automation.Quotation.Seal.{
  Commercial, commercial_of, write_technical_lines, write_all_lines, apply_commercial,
}
use procurement_automation.Quotation.RoundTrip.{
  IsGiven, IsPriced, AreDistinct, apply_sealed_payload-write_technical_lines,
}
use procurement_automation.Quotation.Payload.{Service, seal_payload, unseal_payload}
use procurement_automation.Quotation.Ingest.{write_offer}
use procurement_automation.Quotation.Unseal.{opened_by, unseal_row}

-- What is relied on: the laws of the libraries, and JSON gives back the payload that it wrote.
pub record IsFaithful (s : Service) (c : Commercial) : Type 0 where
  pub lawful : AreLawful s.lib
  pub loads_dumps : s.codec.loads (s.codec.dumps c) ≡ some c
  pub dumps_bytes : AreBytes (s.codec.dumps c)

module _ (s : Service) (c : Commercial) (laws : IsFaithful s c) (nonce : Bytes)
    (hn : length nonce ≡ 16) where
  seal_payload-unseal_payload :
      (case_id ref : String)
      → length (s.codec.dumps c) ≤ 8160
      → (e : String × String) × (seal_payload s nonce c case_id ref ≡ ok e)
        × (unseal_payload s e.0 case_id ref ≡ ok c)
  unfolding seal_payload unseal_payload
  seal_payload-unseal_payload case_id ref fits =
      let (e, he, hd) =
        encrypt-decrypt s.lib laws.lawful nonce hn (s.codec.dumps c) (s.codec.context case_id ref)
          laws.dumps_bytes s.encryptor fits in
      (e, rw he refl, rw (hd, laws.loads_dumps) refl)

-- The row of an offer written in clear, with the envelope that it also has.
abbrev pub in_clear : ParsedQuotation → String × String → Quotation → Quotation
in_clear p (ciphertext, key_reference) q = write_all_lines p (
    apply_commercial p
      (record q { is_sealed = true; sealed_payload = ciphertext; sealed_key_id = key_reference }))

-- Take an offer whose lines answer different lines of the request, in which no given amount is 0,
-- and whose commercial part takes at most 8,160 bytes as JSON. Sealed into a new row it is
-- accepted, and unsealing that row gives what writing the offer in clear would have given, with
-- the envelope still there and the actor and the time recorded.
pub sealed_offer_opens :
    (s : Service) (p : ParsedQuotation) (q : Quotation)
    → IsFaithful s (commercial_of p)
    → (nonce : Bytes) → length nonce ≡ 16
    → q.lines ≡ []
    → IsGiven p.total_amount
    → All IsPriced p.lines
    → AreDistinct p.lines
    → length (s.codec.dumps (commercial_of p)) ≤ 8160
    → (actor : String) (now : ℕ)
    → (e : String × String) × (write_offer s nonce true p q
        ≡ ok (
            write_technical_lines p
              (record q { is_sealed = true; sealed_payload = e.0; sealed_key_id = e.1 })))
      × (unseal_row s actor now (
            write_technical_lines p
              (record q { is_sealed = true; sealed_payload = e.0; sealed_key_id = e.1 }))
          ≡ ok (opened_by actor now (in_clear p e q)))
unfolding write_offer unseal_row write_technical_lines
sealed_offer_opens s p q laws nonce hn fresh total priced distinct fits actor now =
    let (e, he, hd) =
      seal_payload-unseal_payload s (commercial_of p) laws nonce hn q.case_id q.quotation_id fits in
    (
      e,
      rw he refl,
      rw
          (
            hd,
            apply_sealed_payload-write_technical_lines p
                (record q { is_sealed = true; sealed_payload = e.0; sealed_key_id = e.1 }) fresh
                total priced distinct,
          )
          refl,
    )
