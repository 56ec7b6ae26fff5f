-- ===== src/Requirement/Compliance.antt =====
-- When an offer complies, and when a requirement counts as not addressed.
use procurement_automation.Prelude.{
  ◌≡◌, refl, ap, ◌↔◌, ◌≢◌, inl, inr, Bool, true, false, not, Option, none, some, String, arith,
  Bool-cases, Option-cases,
}
use procurement_automation.Prelude.Text.{Unicode}
use procurement_automation.Vocabulary.Technical.{ComparisonOperator, ComplianceStatus}
use procurement_automation.Decimal
use procurement_automation.Decimal.{Decimal}
use procurement_automation.Decimal.Order.{not-lt}
use procurement_automation.Requirement.{Requirement, is_missing}
use procurement_automation.Requirement.Band.{Band, acceptable_band}
use procurement_automation.Requirement.Answers.{Reading, reads, unclear, no_word, as_bool}
use procurement_automation.Requirement.Evaluate.Numeric.{Outcome, judge, judge_in, fails_above}
use procurement_automation.Requirement.Evaluate.{
  Offer, Converter, aligned, differ, judge_boolean, judge_by, is_silent, evaluate,
}

-- The status, if the call returns.
abbrev pub status_of : Option Outcome → Option ComplianceStatus
status_of none = none
status_of (some (status, why)) = some status

-- The number lies within the bounds that there are.
abbrev pub IsAbove : Option Decimal → Decimal → Type 0
IsAbove none v = Unit
IsAbove (some low) v = Decimal.le low v ≡ true

abbrev pub IsBelow : Option Decimal → Decimal → Type 0
IsBelow none v = Unit
IsBelow (some high) v = Decimal.le v high ≡ true

abbrev pub IsWithin : Band → Decimal → Type 0
IsWithin (low, high) v = IsAbove low v × IsBelow high v

judge_in_iff :
    (low high : Option Decimal) (strict : Bool) (v : Decimal)
    → ((judge_in (low, high) strict v).0 ≡ ComplianceStatus.compliant) ↔ IsWithin (low, high) v
unfolding judge_in
judge_in_iff none none strict v = ground arith
judge_in_iff none (some high) strict v = ground (arith, not-lt high v)
judge_in_iff (some low) none strict v = ground (arith, not-lt v low)
judge_in_iff (some low) (some high) strict v = ground (arith, not-lt v low, not-lt high v)

judge_in-addressed :
    (b : Band) (strict : Bool) (v : Decimal)
    → (judge_in b strict v).0 ≢ ComplianceStatus.not_addressed
unfolding judge_in
judge_in-addressed (low, high) strict v h = ground arith

judge-addressed :
    (r : Requirement) (value : Option Decimal) → (judge r value).0 ≢ ComplianceStatus.not_addressed
unfolding judge
judge-addressed r none h = cc
judge-addressed r (some v) h = judge_in-addressed (acceptable_band r) (fails_above r.operator) v h

judge_boolean-addressed :
    (answer expected : Reading)
    → status_of (judge_boolean answer expected) ≢ some ComplianceStatus.not_addressed
unfolding judge_boolean
judge_boolean-addressed no_word expected h = cc
judge_boolean-addressed unclear expected h = cc
judge_boolean-addressed (reads b) no_word h = cc
judge_boolean-addressed (reads b) unclear h = ground arith
judge_boolean-addressed (reads b) (reads e) h = ground arith

judge_by-addressed :
    (op : ComparisonOperator) (u : Unicode) (r : Requirement) (o : Offer) (value : Option Decimal)
    → status_of (judge_by op u r o value) ≢ some ComplianceStatus.not_addressed
unfolding judge_by
judge_by-addressed ComparisonOperator.present u r o value h = cc
judge_by-addressed ComparisonOperator.boolean u r o value h =
    judge_boolean-addressed (as_bool u o.text) (as_bool u (some r.target_value)) h
judge_by-addressed ComparisonOperator.one_of u r o value h = ground arith
judge_by-addressed ComparisonOperator.contains u r o value h = ground arith
judge_by-addressed ComparisonOperator.eq u r o value h = ground (arith, judge-addressed r value)
judge_by-addressed _ u r o value h = ground (arith, judge-addressed r value)

-- A requirement counts as NOT_ADDRESSED exactly when the offer gives neither a number nor a text
-- with anything but white space, whatever the operator and the converter.
pub evaluate-not_addressed :
    (u : Unicode) (convert : Converter) (r : Requirement) (o : Offer)
    → (status_of (evaluate u convert r o) ≡ some ComplianceStatus.not_addressed)
      ↔ (is_silent o ≡ true)
unfolding evaluate
evaluate-not_addressed u convert r o = elim (Bool-cases (is_silent o)) [
  | inl e ↦ rw e (λ _. refl, λ _. refl)
  | inr e ↦
      rw e (elim (Option-cases (aligned (differ u o.uom r.uom) convert o.numeric o.uom r.uom)) [
        | inl n ↦ rw n (λ h. cc, λ h. cc)
        | inr (value, n) ↦ rw n (λ h. absurd (judge_by-addressed r.operator u r o value h), λ h. cc)
      ])
]

-- The operators that compare numbers; EQ does so if it has a numeric target.
abbrev pub is_numeric : ComparisonOperator → Option Decimal → Bool
is_numeric ComparisonOperator.gte target = true
is_numeric ComparisonOperator.lte target = true
is_numeric ComparisonOperator.range target = true
is_numeric ComparisonOperator.tolerance target = true
is_numeric ComparisonOperator.eq target = not (is_missing target)
is_numeric _ target = false

judge_by-numeric :
    (op : ComparisonOperator) (u : Unicode) (r : Requirement) (o : Offer) (value : Option Decimal)
    → is_numeric op r.target_numeric ≡ true
    → judge_by op u r o value ≡ some (judge r value)
unfolding judge_by
judge_by-numeric ComparisonOperator.eq u r o value h = ground arith
judge_by-numeric ComparisonOperator.boolean u r o value h = cc
judge_by-numeric ComparisonOperator.one_of u r o value h = cc
judge_by-numeric ComparisonOperator.contains u r o value h = cc
judge_by-numeric ComparisonOperator.present u r o value h = cc
judge_by-numeric _ u r o value h = refl

some-injective : {s t : ComplianceStatus} → some s ≡ some t → s ≡ t
some-injective h = cc

aligned-given :
    (needed : Bool) (convert : Converter) (n : Option Decimal) (from to : String) {v : Decimal}
    → aligned needed convert n from to ≡ some (some v)
    → is_missing n ≡ false
aligned-given needed convert none from to h = cc
aligned-given needed convert (some x) from to h = refl

-- For a requirement that compares numbers, an offer whose number `v`, once converted where the
-- units differ, is known is COMPLIANT exactly when `v` lies within the acceptable band, both ends
-- included.
pub evaluate-compliant :
    (u : Unicode) (convert : Converter) (r : Requirement) (o : Offer) (v : Decimal)
    → is_numeric r.operator r.target_numeric ≡ true
    → aligned (differ u o.uom r.uom) convert o.numeric o.uom r.uom ≡ some (some v)
    → (status_of (evaluate u convert r o) ≡ some ComplianceStatus.compliant)
      ↔ IsWithin (acceptable_band r) v
unfolding evaluate judge
evaluate-compliant u convert r o v numeric given =
    let (low, high) = acceptable_band r in
    let heard : is_silent o ≡ false =
      ground (arith, aligned-given (differ u o.uom r.uom) convert o.numeric o.uom r.uom given) in
    rw (heard, given, judge_by-numeric r.operator u r o (some v) numeric)
      (let (to, from) = judge_in_iff low high (fails_above r.operator) v in
        (λ h. to (some-injective h), λ w. ap some (from w)))

-- For a requirement that compares numbers, an offer of a text alone is UNVERIFIABLE, so it never
-- complies, whatever the text says.
pub evaluate-unverifiable :
    (u : Unicode) (convert : Converter) (r : Requirement) (o : Offer)
    → is_numeric r.operator r.target_numeric ≡ true
    → is_silent o ≡ false
    → o.numeric ≡ none
    → status_of (evaluate u convert r o) ≡ some ComplianceStatus.unverifiable
unfolding evaluate judge
evaluate-unverifiable u convert r o numeric heard silent =
    rw (heard, silent, judge_by-numeric r.operator u r o none numeric) refl
