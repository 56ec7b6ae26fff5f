-- ===== src/Policy/Qualify/Complete.antt =====
-- `qualifies_technically` against its meaning.
use Prim.Native.Nat.{Ordering}
use Prim.Native.String.{compare}
use text.Mathlib.TextEquality.{path_by_compare}
use mathlib.Core.Path.{subst, fun_ext}
use procurement_automation.Prelude.{
  ◌≡◌, ◌∙◌, refl, sym, ◌↔◌, ◌⊎◌, inl, inr, Bool, true, false, not, if◌then◌else◌, Option, none,
  some, List, [], ◌∷◌, String, str_eq, is_empty, All, arith, Bool-cases, Option-cases,
}
use procurement_automation.Prelude.Dict
use procurement_automation.Prelude.Dict.{Dict}
use procurement_automation.Requirement
use procurement_automation.Requirement.{Requirement, ComplianceAssessment}
use procurement_automation.Policy.Qualify.{
  insert_sorted, mandatory_ids, by_requirement, blockers_of, qualifies_technically,
}

-- The last assessment of a requirement in the list.
abbrev pub last_of : String → List ComplianceAssessment → Option ComplianceAssessment
last_of i [] = none
last_of i (a ∷ rest) = elim (last_of i rest) [
  | some b ↦ some b
  | none ↦ if str_eq a.requirement_id i then some a else none
]

abbrev or_option :
    Option ComplianceAssessment → Option ComplianceAssessment → Option ComplianceAssessment
or_option none o = o
or_option (some a) o = some a

-- There is an assessment, and it does not block.
abbrev pub meets : Option ComplianceAssessment → Bool
meets none = false
meets (some a) = not (Requirement.blocks_qualification a)

get-by_requirement :
    (i : String) (assessments : List ComplianceAssessment) (d : Dict ComplianceAssessment)
    → Dict.get (by_requirement assessments d) i ≡ or_option (last_of i assessments) (Dict.get d i)
unfolding by_requirement
get-by_requirement i [] d = refl
get-by_requirement i (a ∷ rest) d =
    get-by_requirement i rest (Dict.put d a.requirement_id a)
    ∙ ground (arith, Dict.get-put d a.requirement_id i a)

Ordering-cases : (o : Ordering) → (o ≡ Ordering.lt) ⊎ ((o ≡ Ordering.eq) ⊎ (o ≡ Ordering.gt))
Ordering-cases Ordering.lt = inl refl
Ordering-cases Ordering.eq = inr (inl refl)
Ordering-cases Ordering.gt = inr (inr refl)

module _ (P : String → Type 0) where
  All-insert_sorted : (s : String) (xs : List String) → P s × All P xs → All P (insert_sorted s xs)
  unfolding insert_sorted
  All-insert_sorted s [] h = h
  All-insert_sorted s (t ∷ rest) (p, (q, r)) =
      let later = All-insert_sorted s rest (p, r) in
      elim (Ordering-cases (compare s t)) [
        | inl e ↦ rw e (p, (q, r))
        | inr (inl e) ↦ rw e (q, r)
        | inr (inr e) ↦ rw e (q, later)
      ]

  insert_sorted-All : (s : String) (xs : List String) → All P (insert_sorted s xs) → P s × All P xs
  unfolding insert_sorted
  insert_sorted-All s [] h = h
  insert_sorted-All s (t ∷ rest) h = elim (Ordering-cases (compare s t)) [
    | inl e ↦ rw e at h
    | inr (inl e) ↦ let (q, r) = (rw e at h) in (subst P (sym (path_by_compare s t e)) q, (q, r))
    | inr (inr e) ↦
        let (q, later) = (rw e at h) in let (p, r) = insert_sorted-All s rest later in (p, (q, r))
  ]

  -- The sorted set holds the ids of the mandatory requirements, and no others.
  mandatory_ids-All :
      (rs : List Requirement)
      → All P (mandatory_ids rs)
        ↔ All (λ r. Requirement.is_mandatory r.obligation ≡ true → P r.requirement_id) rs
  unfolding mandatory_ids
  mandatory_ids-All [] = (λ h. h, λ h. h)
  mandatory_ids-All (r ∷ rs) =
      let (to, from) = mandatory_ids-All rs in
      elim (Bool-cases (Requirement.is_mandatory r.obligation)) [
        | inl e ↦ rw e (
          λ h.
              let (p, q) = insert_sorted-All r.requirement_id (mandatory_ids rs) h in
              (λ _. p, to q),
          λ h. All-insert_sorted r.requirement_id (mandatory_ids rs) (h.0 refl, from h.1),
        )
        | inr e ↦ rw e (λ h. (λ t. cc, to h), λ h. from h.1)
      ]

blockers_of-All :
    (xs : List String) (d : Dict ComplianceAssessment)
    → (is_empty (blockers_of xs d) ≡ true) ↔ All (λ i. meets (Dict.get d i) ≡ true) xs
unfolding blockers_of
blockers_of-All [] d = (λ _. tt, λ _. refl)
blockers_of-All (i ∷ xs) d =
    let (to, from) = blockers_of-All xs d in
    elim (Option-cases (Dict.get d i)) [
      | inl e ↦ rw e (λ h. cc, λ h. cc h.0)
      | inr (a, e) ↦ elim (Bool-cases (Requirement.blocks_qualification a)) [
        | inl b ↦ rw e (rw b (λ h. cc, λ h. cc h.0))
        | inr b ↦ rw e (rw b (λ h. (refl, to h), λ h. from h.1))
      ]
    ]

get-last_of :
    (assessments : List ComplianceAssessment) (i : String)
    → Dict.get (by_requirement assessments []) i ≡ last_of i assessments
unfolding Dict.get
get-last_of assessments i =
    get-by_requirement i assessments []
    ∙ elim (Option-cases (last_of i assessments)) [ inl e ↦ rw e | inr (a, e) ↦ rw e ]

-- A supplier qualifies exactly when each mandatory requirement has an assessment, and the last
-- assessment of that requirement does not block. So an answer that is missing disqualifies.
pub qualifies_technically_iff :
    (assessments : List ComplianceAssessment) (requirements : List Requirement)
    → ((qualifies_technically assessments requirements).0 ≡ true)
      ↔ All
          (λ r.
            Requirement.is_mandatory r.obligation ≡ true
            → meets (last_of r.requirement_id assessments) ≡ true)
          requirements
unfolding qualifies_technically
qualifies_technically_iff assessments requirements =
    let found = by_requirement assessments [] in
    let (clear, clear') = blockers_of-All (mandatory_ids requirements) found in
    let (all, all') = mandatory_ids-All (λ i. meets (Dict.get found i) ≡ true) requirements in
    subst
      (λ (f : String → Option ComplianceAssessment).
        (is_empty (blockers_of (mandatory_ids requirements) found) ≡ true)
        ↔ All
            (λ r. Requirement.is_mandatory r.obligation ≡ true → meets (f r.requirement_id) ≡ true)
            requirements)
      (fun_ext (get-last_of assessments)) (λ h. all (clear h), λ h. clear' (all' h))
