-- ===== src/Requirement/Dashes.antt =====
-- An answer that is all dashes.
use procurement_automation.Prelude.{
  ℕ, zero, suc, ◌≡◌, refl, ap, false, Option, none, some, [], ◌∷◌, String, any, is_empty, arith,
}
use procurement_automation.Prelude.Text.{
  Codes, Unicode, codes, strip, strip_left, strip_right, lower, collapse, occurs_in, replace,
}
use procurement_automation.Vocabulary.Technical.{ComparisonOperator}
use procurement_automation.Requirement.{Requirement}
use procurement_automation.Requirement.Answers.{
  text_of, norm, false_phrases, no_word, read_token, as_bool,
}
use procurement_automation.Requirement.Evaluate.{
  Offer, Converter, judge_boolean, judge_by, is_silent, evaluate,
}

abbrev pub dashes : ℕ → Codes
dashes zero = []
dashes (suc n) = b'-' ∷ dashes n

abbrev spaces : ℕ → Codes
spaces zero = []
spaces (suc n) = b' ' ∷ spaces n

strip_right-dashes : (n : ℕ) → strip_right (dashes n) ≡ dashes n
unfolding strip_right
strip_right-dashes zero = refl
strip_right-dashes (suc n) = rw (strip_right-dashes n)

lower-dashes : (u : Unicode) (n : ℕ) → lower u (dashes n) ≡ dashes n
unfolding lower
lower-dashes u zero = refl
lower-dashes u (suc n) = ap (λ s. b'-' ∷ s) (lower-dashes u n)

collapse-dashes : (n : ℕ) → collapse false (dashes n) ≡ dashes n
unfolding collapse
collapse-dashes zero = refl
collapse-dashes (suc n) = ap (λ s. b'-' ∷ s) (collapse-dashes n)

strip-dashes : (n : ℕ) → strip (dashes n) ≡ dashes n
unfolding strip
strip-dashes zero = refl
strip-dashes (suc n) = strip_right-dashes (suc n)

replace-dashes : (n : ℕ) → replace b'-' b' ' (dashes n) ≡ spaces n
unfolding replace
replace-dashes zero = refl
replace-dashes (suc n) = ap (λ s. b' ' ∷ s) (replace-dashes n)

strip_left-spaces : (n : ℕ) → strip_left (spaces n) ≡ []
unfolding strip_left
strip_left-spaces zero = refl
strip_left-spaces (suc n) = strip_left-spaces n

no_phrase : (n : ℕ) → any (λ phrase. occurs_in phrase (dashes n)) false_phrases ≡ false
unfolding occurs_in
no_phrase zero = refl
no_phrase (suc n) = no_phrase n

read-dashes : (n : ℕ) → read_token (dashes (suc n)) ≡ no_word
unfolding read_token
read-dashes n = rw (no_phrase n, replace-dashes n, strip_left-spaces n) refl

norm-dashes : (u : Unicode) (t : String) (n : ℕ) → codes t ≡ dashes n → norm u (some t) ≡ dashes n
unfolding norm
norm-dashes u t n e = rw (e, strip-dashes n, lower-dashes u n) (collapse-dashes n)

heard-dashes :
    (o : Offer) (t : String) (n : ℕ)
    → o.text ≡ some t
    → codes t ≡ dashes (suc n)
    → is_silent o ≡ false
heard-dashes o t n e d =
    let blank : is_empty (strip (text_of o.text)) ≡ false = rw (e, d, strip-dashes (suc n)) refl in
    ground arith

as_bool-dashes :
    (u : Unicode) (answer : Option String) (t : String) (n : ℕ)
    → answer ≡ some t
    → codes t ≡ dashes (suc n)
    → as_bool u answer ≡ no_word
unfolding as_bool
as_bool-dashes u answer t n e d = rw (e, norm-dashes u t (suc n) d) (read-dashes n)

-- A yes/no requirement that is answered, without a number, by one or more dashes and nothing
-- else is not evaluated: the call ends in an exception.
pub evaluate-dashes :
    (u : Unicode) (convert : Converter) (r : Requirement) (o : Offer) (t : String) (n : ℕ)
    → r.operator ≡ ComparisonOperator.boolean
    → o.numeric ≡ none
    → o.text ≡ some t
    → codes t ≡ dashes (suc n)
    → evaluate u convert r o ≡ none
unfolding evaluate judge_by judge_boolean
evaluate-dashes u convert r o t n boolean bare e d =
    rw (heard-dashes o t n e d, bare, boolean, as_bool-dashes u o.text t n e d) refl
