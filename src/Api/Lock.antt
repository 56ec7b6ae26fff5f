-- ===== src/Api/Lock.antt =====
-- The optimistic lock of `SqlSourcingCaseRepository.save` between two writers that loaded one row.
use procurement_automation.Prelude.{
  ℕ, ◌+◌, ◌≡◌, refl, ap, ◌∙◌, ltb, true, false, some, String, arith,
}
use procurement_automation.Errors.{Error, Result, ok, err}
use procurement_automation.Errors.Chain.{◌>>=◌}
use procurement_automation.Vocabulary.Case.{CaseState}
use procurement_automation.Case.{SourcingCase, moved}
use procurement_automation.Api.Store.{save_row, last_200, max}

abbrev pub save_onto : SourcingCase → SourcingCase → Result SourcingCase
save_onto c row = save_row c (some row)

-- Two calls of `save`, one after the other, both of cases loaded from the same row.
abbrev pub second_save : SourcingCase → SourcingCase → SourcingCase → Result SourcingCase
second_save row first second = save_row first (some row) >>= save_onto second

-- What a save onto a row of the given version writes, if it is accepted.
abbrev pub written : SourcingCase → ℕ → SourcingCase
written c v = record c { version = max c.version (v + 1); state_history = last_200 c.state_history }

module _ (row : SourcingCase) where
  not_older : (n : ℕ) → ltb (n + 1) n ≡ false
  not_older n = ground arith

  not_older_self : (n : ℕ) → ltb (n + 1) (n + 1) ≡ false
  not_older_self n = ground arith

  older : (n : ℕ) → ltb n (n + 1) ≡ true
  older n = ground arith

  accepted :
      (c stored : SourcingCase)
      → ltb c.version stored.version ≡ false
      → save_row c (some stored) ≡ ok (written c stored.version)
  unfolding save_row
  accepted c stored h = rw h refl

  one_later : (n : ℕ) → max (n + 1) (n + 1) ≡ n + 1
  one_later n = ground arith

  both_moved :
      (first second : SourcingCase)
      → first.version ≡ row.version + 1
      → second.version ≡ row.version + 1
      → second_save row first second ≡ ok (written second (row.version + 1))
  both_moved first second h k =
      let saved : save_row first (some row) ≡ ok (written first row.version) =
        accepted first row (rw h (not_older row.version)) in
      let version : (written first row.version).version ≡ row.version + 1 =
        rw h (one_later row.version) in
      ap (λ r. r >>= save_onto second) saved
      ∙ (accepted second (written first row.version) (rw (k, version) (not_older_self row.version))
          ∙ ap (λ v. ok (written second v)) version)

  not_moved :
      (first second : SourcingCase)
      → first.version ≡ row.version
      → second.version ≡ row.version
      → second_save row first second ≡ err Error.conflict
  unfolding save_row
  not_moved first second h k = ground (arith, h, k)

-- Take two writers that loaded the same row. If neither changed the version, as a call of
-- `unlock_commercial` or `record_award_approval` does not, the second save is refused as a
-- conflict. If each made a transition, the second save is accepted, and overwrites the state and
-- the history of the first.
pub second_save-cases :
    (row first second : SourcingCase) (s t : CaseState) (actor other reason why : String)
    (now later : ℕ)
    → first.version ≡ row.version
    → second.version ≡ row.version
    → (second_save row first second ≡ err Error.conflict)
      × (second_save row (moved s actor reason now row) (moved t other why later row)
          ≡ ok (written (moved t other why later row) (row.version + 1)))
unfolding moved
second_save-cases row first second s t actor other reason why now later h k = (
  not_moved row first second h k,
  both_moved row (moved s actor reason now row) (moved t other why later row) refl refl,
)
