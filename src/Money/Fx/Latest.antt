-- ===== src/Money/Fx/Latest.antt =====
-- Which rate a lookup takes: buckets stay sorted by date, and the latest rate in force wins.

use procurement_automation.Prelude.{
  ◌⊎◌, ℕ, ◌≤◌, ◌<◌, leb, ◌≡◌, refl, inl, inr, Bool, true, false, Option, none, some, List, [], ◌∷◌,
  keep, All, Any, arith, Bool-cases,
}
use procurement_automation.Prelude.Text.{Codes, Unicode}
use procurement_automation.Money.Fx.{
  FxRate, FxRateTable, Buckets, insert_rate, add_to, add, add_many, last_rate, direct_rate,
  same_pair,
}

-- Dates do not fall along the list.
abbrev pub IsSorted : List FxRate → Type 0
IsSorted [] = Unit
IsSorted (r ∷ rest) = All (λ s. r.as_of ≤ s.as_of) rest × IsSorted rest

All-insert_rate :
    (P : FxRate → Type 0) (r : FxRate) (rates : List FxRate)
    → P r
    → All P rates
    → All P (insert_rate r rates)
unfolding insert_rate
All-insert_rate P r [] p h = (p, tt)
All-insert_rate P r (s ∷ rest) p h = elim (Bool-cases (leb s.as_of r.as_of)) [
  | inl e ↦ rw e (h.0, All-insert_rate P r rest p h.1)
  | inr e ↦ rw e (p, h)
]

All-later :
    (r s : FxRate) (rest : List FxRate)
    → r.as_of ≤ s.as_of
    → All (λ t. s.as_of ≤ t.as_of) rest
    → All (λ t. r.as_of ≤ t.as_of) rest
All-later r s [] le h = tt
All-later r s (t ∷ rest) le h = (omega arith, All-later r s rest le h.1)

insert_rate-IsSorted :
    (r : FxRate) (rates : List FxRate) → IsSorted rates → IsSorted (insert_rate r rates)
unfolding insert_rate
insert_rate-IsSorted r [] h = (tt, tt)
insert_rate-IsSorted r (s ∷ rest) h = elim (Bool-cases (leb s.as_of r.as_of)) [
  | inl e ↦ rw e (
    All-insert_rate (λ t. s.as_of ≤ t.as_of) r rest (ground arith) h.0,
    insert_rate-IsSorted r rest h.1,
  )
  | inr e ↦ rw e ((ground arith, All-later r s rest (ground arith) h.0), h)
]

-- Every bucket is sorted.
abbrev pub AreSorted : Buckets → Type 0
AreSorted [] = Unit
AreSorted ((_, _, rates) ∷ rest) = IsSorted rates × AreSorted rest

add_to-AreSorted :
    (b : Buckets) (base quote : Codes) (r : FxRate)
    → AreSorted b
    → AreSorted (add_to b base quote r)
unfolding add_to
add_to-AreSorted [] base quote r h = ((tt, tt), tt)
add_to-AreSorted ((b, q, rates) ∷ rest) base quote r h =
    elim (Bool-cases (same_pair b q base quote)) [
      | inl e ↦ rw e (insert_rate-IsSorted r rates h.0, h.1)
      | inr e ↦ rw e (h.0, add_to-AreSorted rest base quote r h.1)
    ]

-- Publishing rates in any order keeps every bucket sorted by date.
pub add_many-AreSorted :
    (u : Unicode) (rates : List FxRate) (table : FxRateTable)
    → AreSorted table.rates
    → AreSorted (add_many u rates table).rates
unfolding add_many add
add_many-AreSorted u [] table h = h
add_many-AreSorted u (r ∷ rest) table h =
    add_many-AreSorted u rest (add u r table) (add_to-AreSorted table.rates _ _ r h)

-- `chosen` is a rate of the bucket in force on the date, and none in force is later.
pub record IsLatest (bucket : List FxRate) (date : ℕ) (chosen : FxRate) : Type 0 where
  pub member : Any (λ r. r ≡ chosen) bucket
  pub in_force : chosen.as_of ≤ date
  pub latest : All (λ r. r.as_of ≤ date → r.as_of ≤ chosen.as_of) bucket

IsLatest-keep :
    (bucket : List FxRate) (date : ℕ) (first : FxRate)
    → IsSorted (first ∷ bucket)
    → first.as_of ≤ date
    → IsLatest (first ∷ bucket) date (last_rate first (keep (λ r. leb r.as_of date) bucket))
IsLatest-keep [] date first h le = record {
  member = inl refl;
  in_force = le;
  latest = (λ _. omega arith, tt);
}
IsLatest-keep (s ∷ rest) date first h le = elim (Bool-cases (leb s.as_of date)) [
  | inl e ↦
      let ih = IsLatest-keep rest date s h.1 (ground arith) in
      rw e (record {
        member = inr ih.member;
        in_force = ih.in_force;
        latest = ((λ _. omega (arith, h.0.0, ih.latest.0 (ground arith))), ih.latest);
      })
  | inr e ↦
      let ih = IsLatest-keep rest date first (h.0.1, h.1.1) le in
      rw e (record {
        member = elim ih.member [ inl p ↦ inl p | inr q ↦ inr (inr q) ];
        in_force = ih.in_force;
        latest = (ih.latest.0, ((λ p. ground arith), ih.latest.1));
      })
]

-- A lookup's choice in a sorted bucket, by whether its first rate is in force.
abbrev IsChosenWhen : Bool → FxRate → List FxRate → ℕ → Option FxRate → Type 0
IsChosenWhen true first bucket date chosen =
    (r : FxRate) × (chosen ≡ some r) × IsLatest (first ∷ bucket) date r
IsChosenWhen false first bucket date chosen = chosen ≡ some first

abbrev pub IsChosen : List FxRate → ℕ → Option FxRate → Type 0
IsChosen [] date chosen = chosen ≡ none
IsChosen (first ∷ bucket) date chosen = IsChosenWhen (leb first.as_of date) first bucket date chosen

none_in_force :
    (bucket : List FxRate) (date : ℕ) (n : ℕ)
    → date < n
    → All (λ r. n ≤ r.as_of) bucket
    → keep (λ r. leb r.as_of date) bucket ≡ []
none_in_force [] date n lt h = refl
none_in_force (r ∷ bucket) date n lt h =
    let late : leb r.as_of date ≡ false = ground (arith, h.0) in
    rw late (none_in_force bucket date n lt h.1)

-- In a bucket sorted by date a lookup finds nothing if the bucket is empty. If a rate is in force
-- on the date, it takes one of the bucket that is in force, and none in force is of a later date.
-- If the date is before the first rate, it takes the first.
pub direct_rate-IsChosen :
    (bucket : List FxRate) (date : ℕ)
    → IsSorted bucket
    → IsChosen bucket date (direct_rate bucket date)
unfolding direct_rate
direct_rate-IsChosen [] date h = refl
direct_rate-IsChosen (first ∷ bucket) date h = elim (Bool-cases (leb first.as_of date)) [
  | inl e ↦ rw e (
    last_rate first (keep (λ r. leb r.as_of date) bucket),
    refl,
    IsLatest-keep bucket date first h (ground arith),
  )
  | inr e ↦
      let lt : date < first.as_of = ground arith in
      rw (e, none_in_force bucket date first.as_of lt h.0) refl
]

-- `chosen` is a right answer for the rates: none if there is none; otherwise one of them that is in
-- force on the date, and none in force is later, or, before any is in force, an earliest one.
abbrev pub IsLookup : List FxRate → ℕ → Option FxRate → Type 0
IsLookup rates date none = rates ≡ []
IsLookup rates date (some r) =
    Any (λ s. s ≡ r) rates
    × (((r.as_of ≤ date) × All (λ s. s.as_of ≤ date → s.as_of ≤ r.as_of) rates)
        ⊎ ((date < r.as_of) × All (λ s. r.as_of ≤ s.as_of) rates))

pub IsChosen-IsLookup :
    (bucket : List FxRate) (date : ℕ) (chosen : Option FxRate)
    → IsSorted bucket
    → IsChosen bucket date chosen
    → IsLookup bucket date chosen
IsChosen-IsLookup [] date chosen sorted h = rw h refl
IsChosen-IsLookup (first ∷ bucket) date chosen sorted h = elim (Bool-cases (leb first.as_of date)) [
  | inl e ↦
      let (r, same, latest) : IsChosenWhen true first bucket date chosen = rw e at h in
      rw same (latest.member, inl (latest.in_force, latest.latest))
  | inr e ↦
      let same : chosen ≡ some first = rw e at h in
      rw same (inl refl, inr (ground arith, (omega arith, sorted.0)))
]
