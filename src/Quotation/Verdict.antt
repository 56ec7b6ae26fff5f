-- ===== src/Quotation/Verdict.antt =====
-- Where the technical verdict of a new row comes from.
use procurement_automation.Prelude.{
  ℕ, zero, suc, ◌==◌, ◌≡◌, refl, ap, ◌∙◌, inl, inr, Bool, true, false, not, ◌&&◌, Option, none,
  some, List, [], ◌∷◌, ◌++◌, map, String, str_eq, Any, arith, Bool-cases, Option-cases, ltb,
}
use procurement_automation.Prelude.Text.{Unicode}
use procurement_automation.Crypto.{Bytes}
use procurement_automation.Errors.{ok}
use procurement_automation.Errors.Chain.{Result-cases, ok-injective}
use procurement_automation.Vocabulary.Sourcing.{QuotationStatus}
use procurement_automation.Case.{SourcingCase}
use procurement_automation.Quotation.{ParsedQuotation, Quotation}
use procurement_automation.Quotation.Payload.{Service, seal_payload}
use procurement_automation.Quotation.Seal.{
  commercial_of, write_technical_lines, write_all_lines, apply_commercial,
}
use procurement_automation.Quotation.Ingest.{
  Arrival, find_by_vendor, find_earlier, part_of, parts_changed, source_of,
  inherit_technical_result, new_row, first_status, write_offer, supersede_new, round_of,
  should_seal, ingest_text, is_status,
}
use procurement_automation.Quotation.Unseal.{is_listed}

-- A row of the table, of the given vendor.
abbrev pub IsRowOf : List Quotation → String → Quotation → Type 0
IsRowOf rows vendor q = Any (λ r. r ≡ q) rows × (str_eq q.vendor_id vendor ≡ true)

some_eq : {a b : Quotation} → some a ≡ some b → a ≡ b
some_eq h = cc

module _ (vendor : String) where
  find_by_vendor-IsRowOf :
      (rows : List Quotation) (round : ℕ) (q : Quotation)
      → find_by_vendor rows vendor round ≡ some q
      → IsRowOf rows vendor q
  unfolding find_by_vendor
  find_by_vendor-IsRowOf [] round q h = cc
  find_by_vendor-IsRowOf (x ∷ rows) round q h =
      let later : find_by_vendor rows vendor round ≡ some q → IsRowOf (x ∷ rows) vendor q = λ e. (
        inr (find_by_vendor-IsRowOf rows round q e).0,
        (find_by_vendor-IsRowOf rows round q e).1,
      ) in
      elim (Bool-cases (str_eq x.vendor_id vendor && x.negotiation_round == round)) [
        | inr f ↦ later (rw f at h)
        | inl f ↦
            let own : str_eq x.vendor_id vendor ≡ true = ground arith in
            elim (Option-cases (find_by_vendor rows vendor round)) [
              | inl e ↦ rw (← some_eq (rw (f, e) at h)) (inl refl, own)
              | inr (y, e) ↦ elim (Bool-cases (ltb x.revision y.revision)) [
                | inl g ↦ later (e ∙ rw (f, e, g) at h)
                | inr g ↦ rw (← some_eq (rw (f, e, g) at h)) (inl refl, own)
              ]
            ]
      ]

  find_earlier-IsRowOf :
      (rows : List Quotation) (round : ℕ) (q : Quotation)
      → find_earlier rows vendor round ≡ some q
      → IsRowOf rows vendor q
  unfolding find_earlier
  find_earlier-IsRowOf rows zero q h = cc
  find_earlier-IsRowOf rows (suc round) q h =
      elim (Option-cases (find_by_vendor rows vendor round)) [
        | inl e ↦ find_earlier-IsRowOf rows round q (rw e at h)
        | inr (y, e) ↦ find_by_vendor-IsRowOf rows round q (e ∙ rw e at h)
      ]

-- A qualified row takes its verdict from an earlier one of the same vendor, which offered the same
-- parts, or one of the two has no lines.
abbrev pub IsInherited : Unicode → List Quotation → String → Quotation → Type 0
IsInherited u rows vendor q =
    (source : Quotation) × IsRowOf rows vendor source
    × (source.technically_qualified ≡ some true)
    × (parts_changed (map (part_of u) source.lines) (map (part_of u) q.lines) ≡ false)

source-IsRowOf :
    (rows : List Quotation) (vendor : String) (previous : Option Quotation) (round : ℕ)
    (source : Quotation)
    → ((r : Quotation) → previous ≡ some r → IsRowOf rows vendor r)
    → source_of rows previous vendor round ≡ some source
    → IsRowOf rows vendor source
source-IsRowOf rows vendor none round source within h =
    find_earlier-IsRowOf vendor rows round source h
source-IsRowOf rows vendor (some q) round source within h = within source h

inherit-IsInherited :
    (u : Unicode) (rows : List Quotation) (vendor : String) (previous : Option Quotation)
    (round : ℕ) (q : Quotation)
    → ((r : Quotation) → previous ≡ some r → IsRowOf rows vendor r)
    → q.vendor_id ≡ vendor
    → q.technically_qualified ≡ none
    → (inherit_technical_result u rows previous round q).technically_qualified ≡ some true
    → IsInherited u rows vendor (inherit_technical_result u rows previous round q)
unfolding inherit_technical_result
inherit-IsInherited u rows vendor previous round q within own blank h =
    elim (Option-cases (source_of rows previous q.vendor_id round)) [
      | inl e ↦ cc
      | inr (source, e) ↦ elim (Option-cases source.technically_qualified) [
        | inl f ↦ cc (rw (e, f) at h, blank)
        | inr (verdict, f) ↦
            let changed = parts_changed (map (part_of u) source.lines) (map (part_of u) q.lines) in
            elim (Bool-cases changed) [
              | inl g ↦ cc (rw (e, f, g) at h, blank)
              | inr g ↦
                  let row =
                    source-IsRowOf rows vendor previous round source within (rw (← own) e) in
                  rw (e, f, g) (source, row, f ∙ rw (e, f, g) at h, g)
            ]
      ]
    ]

-- A row as `write_offer` leaves it.
record IsFresh (vendor : String) (q : Quotation) : Type 0 where
  own : q.vendor_id ≡ vendor
  blank : q.technically_qualified ≡ none

write_offer-IsFresh :
    (s : Service) (nonce : Bytes) (sealing : Bool) (p : ParsedQuotation) (q r : Quotation)
    → IsFresh q.vendor_id q
    → write_offer s nonce sealing p q ≡ ok r
    → IsFresh q.vendor_id r
unfolding write_offer write_technical_lines write_all_lines apply_commercial
write_offer-IsFresh s nonce false p q r f h =
    rw (← ok-injective h) (record { own = refl; blank = f.blank })
write_offer-IsFresh s nonce true p q r f h =
    elim (Result-cases (seal_payload s nonce (commercial_of p) q.case_id q.quotation_id)) [
      | inr (x, e) ↦ cc (rw e at h)
      | inl (envelope, e) ↦ rw (← ok-injective (rw e at h)) (record { own = refl; blank = f.blank })
    ]

supersede-IsFresh :
    (vendor : String) (old : Option Quotation) (q : Quotation)
    → IsFresh vendor q
    → IsFresh vendor (supersede_new old q)
supersede-IsFresh vendor none q f = f
supersede-IsFresh vendor (some old) q f = record { own = f.own; blank = f.blank }

-- If an offer is taken in and its new row counts as technically qualified, then the table had a row
-- of the same vendor that was qualified and listed the same parts for the same lines, or one of
-- the two rows has no lines.
pub ingest_text-IsInherited :
    (s : Service) (c : SourcingCase) (arrival : Arrival) (p : ParsedQuotation)
    (rows table : List Quotation) (q : Quotation)
    → ingest_text s c arrival p rows ≡ ok (table, q)
    → q.technically_qualified ≡ some true
    → IsInherited s.unicode rows arrival.vendor_id q
unfolding ingest_text
ingest_text-IsInherited s c arrival p rows table q h verdict =
    let round = round_of arrival.negotiation_round c in
    let previous = find_by_vendor rows arrival.vendor_id round in
    let sealing = should_seal s c p in
    let fresh =
      new_row arrival.quotation_id c.case_id arrival.vendor_id round
        (first_status p.declined sealing) p in
    elim (Result-cases (write_offer s arrival.nonce sealing p fresh)) [
      | inr (x, e) ↦ cc (rw e at h)
      | inl (written, e) ↦
          let same = ap (λ r. r.1) (ok-injective (rw e at h)) in
          let f = supersede-IsFresh arrival.vendor_id previous written (
            write_offer-IsFresh s arrival.nonce sealing p fresh written
              (record { own = refl; blank = refl }) e) in
          rw (← same) (
            inherit-IsInherited s.unicode rows arrival.vendor_id previous round
              (supersede_new previous written)
              (λ r found. find_by_vendor-IsRowOf arrival.vendor_id rows round r found) f.own f.blank
              (rw (← same) at verdict))
    ]

no_parts_changed :
    (u : Unicode) (source : Quotation) → parts_changed (map (part_of u) source.lines) [] ≡ false
unfolding parts_changed
no_parts_changed u source = ground arith

declined_row :
    (u : Unicode) (rows : List Quotation) (p : ParsedQuotation) (id case_id vendor : String)
    (round : ℕ) (source : Quotation)
    → p.lines ≡ []
    → find_earlier rows vendor round ≡ some source
    → source.technically_qualified ≡ some true
    → (inherit_technical_result u rows none round (
        write_all_lines p (
          apply_commercial p (new_row id case_id vendor round QuotationStatus.withdrawn p)))).status
      ≡ QuotationStatus.technically_qualified
unfolding inherit_technical_result write_all_lines apply_commercial
declined_row u rows p id case_id vendor round source empty earlier qualified =
    rw (empty, earlier, qualified, no_parts_changed u source) refl

listed :
    (not (is_status QuotationStatus.technically_qualified QuotationStatus.superseded)
      && not (is_status QuotationStatus.technically_qualified QuotationStatus.withdrawn))
    ≡ true
unfolding is_status
listed = refl

-- Take a vendor whose offer of an earlier round is qualified. If it declines in a later round,
-- which has no row of it yet, with an answer that has no lines, the answer is taken in as a
-- technically qualified quotation, not as a withdrawn one, and is listed among the offers.
pub declined-qualified :
    (s : Service) (c : SourcingCase) (arrival : Arrival) (p : ParsedQuotation)
    (rows : List Quotation) (source : Quotation)
    → p.declined ≡ true
    → p.lines ≡ []
    → find_by_vendor rows arrival.vendor_id (round_of arrival.negotiation_round c) ≡ none
    → find_earlier rows arrival.vendor_id (round_of arrival.negotiation_round c) ≡ some source
    → source.technically_qualified ≡ some true
    → (table : List Quotation) × (q : Quotation) × (ingest_text s c arrival p rows ≡ ok (table, q))
      × (q.status ≡ QuotationStatus.technically_qualified)
      × (is_listed q ≡ true)
unfolding ingest_text
declined-qualified s c arrival p rows source declined empty none_yet earlier qualified =
    let round = round_of arrival.negotiation_round c in
    let off : should_seal s c p ≡ false = ground (arith, declined) in
    let written = write_all_lines p (
      apply_commercial p (
        new_row arrival.quotation_id c.case_id arrival.vendor_id round QuotationStatus.withdrawn
          p)) in
    let q = inherit_technical_result s.unicode rows none round written in
    let became =
      declined_row s.unicode rows p arrival.quotation_id c.case_id arrival.vendor_id round source
        empty earlier qualified in
    (rows ++ q ∷ [], q, rw (off, none_yet, declined) refl, became, rw became listed)
