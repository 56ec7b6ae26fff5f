-- ===== src/Requirement/Answers.antt =====
-- `_norm` and `_as_bool`: how a written answer is read.
use procurement_automation.Prelude.{
  Bool, true, false, if◌then◌else◌, Option, none, some, List, [], ◌∷◌, String, any, is_empty,
}
use procurement_automation.Prelude.Text.{
  Codes, Unicode, codes, strip, strip_left, lower, collapse, is_one_of, occurs_in, replace,
  first_word,
}

-- `value or ""`
abbrev pub text_of : Option String → Codes
text_of none = []
text_of (some s) = codes s

-- `_norm`
unfoldable pub norm : Unicode → Option String → Codes
unfolding strip lower collapse
norm u value = collapse false (lower u (strip (text_of value)))

-- `_TRUE_TOKENS`, `_FALSE_TOKENS` and `_FALSE_PHRASES`
abbrev pub true_tokens : List Codes
true_tokens =
    codes "yes"
    ∷ codes "y"
    ∷ codes "true"
    ∷ codes "compliant"
    ∷ codes "comply"
    ∷ codes "complies"
    ∷ codes "confirmed"
    ∷ codes "ok"
    ∷ codes "agreed"
    ∷ codes "1"
    ∷ []

abbrev pub false_tokens : List Codes
false_tokens =
    codes "no"
    ∷ codes "n"
    ∷ codes "false"
    ∷ codes "non-compliant"
    ∷ codes "not compliant"
    ∷ codes "deviation"
    ∷ codes "0"
    ∷ codes "none"
    ∷ []

abbrev pub false_phrases : List Codes
false_phrases =
    codes "not available"
    ∷ codes "not offered"
    ∷ codes "not included"
    ∷ codes "not possible"
    ∷ codes "cannot"
    ∷ codes "can not"
    ∷ codes "unable"
    ∷ codes "not supported"
    ∷ codes "no bid"
    ∷ codes "not applicable"
    ∷ codes "n/a"
    ∷ []

-- How a call of `_as_bool` ends; `no_word` is the `IndexError` of `split()[0]`.
pub data Reading : Type 0 where
  reads : Bool → Reading
  unclear : Reading
  no_word : Reading

-- The last three tests, on the first word of the token with its dashes as spaces.
unfoldable pub read_first_word : Codes → Reading
unfolding is_one_of
read_first_word word =
    if is_empty word
    then no_word
    else if is_one_of false_tokens word
    then reads false
    else if is_one_of true_tokens word
    then reads true
    else unclear

unfoldable pub read_token : Codes → Reading
unfolding is_one_of occurs_in read_first_word replace strip_left first_word
read_token token =
    if is_empty token
    then unclear
    else if is_one_of true_tokens token
    then reads true
    else if is_one_of false_tokens token
    then reads false
    else if any (λ phrase. occurs_in phrase token) false_phrases
    then reads false
    else read_first_word (first_word (strip_left (replace b'-' b' ' token)))

-- `_as_bool`
unfoldable pub as_bool : Unicode → Option String → Reading
unfolding norm read_token
as_bool u value = read_token (norm u value)
