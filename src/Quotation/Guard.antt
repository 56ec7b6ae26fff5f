-- ===== src/Quotation/Guard.antt =====
-- When `unseal_case` opens envelopes, and that it opens them all.
use procurement_automation.Prelude.{
  ℕ, ◌≡◌, ◌⊎◌, refl, inl, inr, true, false, List, [], ◌∷◌, String, All, length, keep, arith,
  Bool-cases,
}
use procurement_automation.Errors.{ok}
use procurement_automation.Errors.Chain.{Result-cases, ok-injective}
use procurement_automation.Case.{SourcingCase, is_system}
use procurement_automation.Quotation.{Quotation}
use procurement_automation.Quotation.Payload.{Service, unseal_payload}
use procurement_automation.Quotation.Unseal.{is_closed, unseal_row, unseal_rows, unseal_case}

module _ (s : Service) (actor : String) (now : ℕ) where
  -- Row by row: a row without an envelope to open stays, and the others are opened.
  abbrev pub AreUnsealed : List Quotation → List Quotation → Type 0
  AreUnsealed [] [] = Unit
  AreUnsealed (q ∷ rows) (r ∷ opened) =
      (((is_closed q ≡ false) × (r ≡ q))
        ⊎ ((is_closed q ≡ true) × (unseal_row s actor now q ≡ ok r)))
      × AreUnsealed rows opened
  AreUnsealed _ _ = ⊥

  abbrev IsCounted : List Quotation → ℕ × List Quotation → Type 0
  IsCounted rows (n, opened) = (n ≡ length (keep is_closed rows)) × AreUnsealed rows opened

  unseal_rows-IsCounted :
      (rows : List Quotation) (r : ℕ × List Quotation)
      → unseal_rows s actor now rows ≡ ok r
      → IsCounted rows r
  unfolding unseal_rows
  unseal_rows-IsCounted [] r h = rw (← ok-injective h) (refl, tt)
  unseal_rows-IsCounted (q ∷ rows) r h = elim (Result-cases (unseal_rows s actor now rows)) [
    | inl ((n, opened), e) ↦
        let (counted, rest) = unseal_rows-IsCounted rows (n, opened) e in
        elim (Bool-cases (is_closed q)) [
          | inr f ↦ rw (f, ← ok-injective (rw (f, e) at h)) (counted, (inl (f, refl), rest))
          | inl f ↦ elim (Result-cases (unseal_row s actor now q)) [
            | inl (x, g) ↦
                rw (f, ← ok-injective (rw (f, g, e) at h))
                  (omega (arith, counted), (inr (f, g), rest))
            | inr (x, g) ↦ cc (rw (f, g) at h)
          ]
        ]
    | inr (x, e) ↦ elim (Bool-cases (is_closed q)) [
      | inr f ↦ cc (rw (f, e) at h)
      | inl f ↦ elim (Result-cases (unseal_row s actor now q)) [
        | inl (y, g) ↦ cc (rw (f, g, e) at h)
        | inr (y, g) ↦ cc (rw (f, g) at h)
      ]
    ]
  ]

  unseal_row-open : (q r : Quotation) → unseal_row s actor now q ≡ ok r → is_closed r ≡ false
  unfolding unseal_row
  unseal_row-open q r h =
      elim (Result-cases (unseal_payload s q.sealed_payload q.case_id q.quotation_id)) [
        | inl (c, e) ↦ rw (← ok-injective (rw e at h)) (ground arith)
        | inr (x, e) ↦ cc (rw e at h)
      ]

  unsealed-open :
      (rows opened : List Quotation)
      → AreUnsealed rows opened
      → All (λ q. is_closed q ≡ false) opened
  unsealed-open [] [] h = tt
  unsealed-open [] (r ∷ opened) h = absurd h
  unsealed-open (q ∷ rows) [] h = absurd h
  unsealed-open (q ∷ rows) (r ∷ opened) (here, later) = (
    elim here [ inl (f, e) ↦ rw e f | inr (f, e) ↦ unseal_row-open q r e ],
    unsealed-open rows opened later,
  )

-- What a successful call relied on and did.
pub record IsUnsealing (s : Service) (c : SourcingCase) (actor : String) (now : ℕ)
    (rows : List Quotation) (n : ℕ) (opened : List Quotation) : Type 0 where
  pub unlocked : c.commercial_unlocked ≡ true
  pub attributed : is_system actor ≡ false
  pub counted : n ≡ length (keep is_closed rows)
  pub unsealed : AreUnsealed s actor now rows opened
  pub all_open : All (λ q. is_closed q ≡ false) opened

-- A call of `unseal_case` that returns was made for an unlocked case in the name of an actor other
-- than the empty one and SYSTEM. It opened every listed row that had an envelope, left the other
-- rows as they were, and gave the number of those it opened; none is left closed.
pub unseal_case-IsUnsealing :
    (s : Service) (c : SourcingCase) (actor : String) (now : ℕ) (rows : List Quotation) (n : ℕ)
    (opened : List Quotation)
    → unseal_case s c actor now rows ≡ ok (n, opened)
    → IsUnsealing s c actor now rows n opened
unfolding unseal_case
unseal_case-IsUnsealing s c actor now rows n opened h = elim (Bool-cases c.commercial_unlocked) [
  | inr e ↦ cc (rw e at h)
  | inl e ↦ elim (Bool-cases (is_system actor)) [
    | inl f ↦ cc (rw (e, f) at h)
    | inr f ↦
        let (counted, unsealed) =
          unseal_rows-IsCounted s actor now rows (n, opened) (rw (e, f) at h) in
        record {
          unlocked = e;
          attributed = f;
          counted = counted;
          unsealed = unsealed;
          all_open = unsealed-open s actor now rows opened unsealed;
        }
  ]
]
