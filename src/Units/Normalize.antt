-- ===== src/Units/Normalize.antt =====
-- From a written unit to its code.
pub mod Stable
use procurement_automation.Prelude.{
  ℕ, ◌==◌, Bool, true, false, not, ◌&&◌, ◌||◌, if◌then◌else◌, Option, none, some, List, [], ◌∷◌,
  ◌++◌, String, is_empty, keep, any, take,
}
use procurement_automation.Prelude.Text.{
  Codes, Unicode, codes, strip, upper, replace, collapse, eq_codes, is_alnum,
}
use procurement_automation.Errors.{Error, Result, ok, err}
use procurement_automation.Units.{Dimension, UnitDefinition}
use procurement_automation.Units.Table.{units}
use procurement_automation.Units.Aliases.{aliases}

-- `UNIT_BY_CODE.get(token)`; the codes of the table differ from one another.
unfoldable pub find_in : List UnitDefinition → Codes → Option UnitDefinition
unfolding eq_codes
find_in [] token = none
find_in (d ∷ rest) token = if eq_codes (codes d.code) token then some d else find_in rest token

unfoldable pub unit_by_code : Codes → Option UnitDefinition
unfolding find_in units
unit_by_code = find_in units

unfoldable pub alias_in : List (Codes × String) → Codes → Option String
unfolding eq_codes
alias_in [] token = none
alias_in ((written, code) ∷ rest) token =
    if eq_codes written token then some code else alias_in rest token

-- The three signs that upper case to the Greek capital, as the letter u.
abbrev fold_micro : Codes → Codes
fold_micro s = replace 0x39c b'u' (replace 0x3bc b'u' (replace 0xb5 b'u' s))

abbrev pub without : ℕ → Codes → Codes
without c = keep (λ d. not (d == c))

-- `token.upper().replace(".", "").replace("_", " ")`, then `" ".join(token.split())`
unfoldable pub clean : Unicode → Codes → Codes
unfolding strip upper replace collapse
clean u raw =
    collapse false (strip (replace b'_' b' ' (without b'.' (upper u (fold_micro (strip raw))))))

-- The code of a token in the table, or of its alias.
unfoldable pub resolve : Codes → Option Codes
unfolding unit_by_code alias_in aliases
resolve token = elim (unit_by_code token) [
  | some d ↦ some token
  | none ↦ elim (alias_in aliases token) [ some code ↦ some (codes code) | none ↦ none ]
]

abbrev pub resolved : Option Codes → Option Codes → Result Codes
resolved (some code) other = ok code
resolved none (some code) = ok code
resolved none none = err Error.unit_conversion

-- `normalize_uom`
unfoldable pub normalize_uom : Unicode → Codes → Result Codes
unfolding clean resolve
normalize_uom u raw =
    let token = clean u raw in
    if is_empty token
    then err Error.unit_conversion
    else resolved (resolve token) (resolve (without b' ' token))

-- `try_normalize_uom`
abbrev or_default : Result Codes → Codes → Codes
or_default (ok code) default = code
or_default (err e) default = default

unfoldable pub try_normalize_uom : Unicode → Codes → Codes → Codes
unfolding normalize_uom
try_normalize_uom u raw default = or_default (normalize_uom u raw) default

-- The characters besides letters and digits that an unknown unit keeps: / % and three signs.
abbrev kept_signs : Codes
kept_signs = b'/' ∷ b'%' ∷ 0xb0 ∷ 0xb2 ∷ 0xb3 ∷ []

-- `normalize_engineering_unit`: an unknown unit is kept, upper case and 16 characters at most.
unfoldable pub normalize_engineering_unit : Unicode → Codes → Codes
unfolding normalize_uom is_alnum strip
normalize_engineering_unit u raw =
    let token = strip raw in
    if is_empty token
    then []
    else or_default (normalize_uom u token)
        (take 16 (keep (λ c. is_alnum u c || any (λ k. k == c) kept_signs) (upper u token)))
