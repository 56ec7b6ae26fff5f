-- ===== src/Units/Converter.antt =====
-- `UnitConverter`: factors between units, with the bridges of a material's alternate units.
use procurement_automation.Prelude.{
  ℕ, zero, suc, Bool, true, false, not, ◌&&◌, ◌||◌, if◌then◌else◌, Option, none, some, List, [],
  ◌∷◌,
}
use procurement_automation.Prelude.Text.{Codes, Unicode, eq_codes}
use procurement_automation.Errors.{Result, ok, err}
use procurement_automation.Decimal
use procurement_automation.Decimal.{Decimal, of_ℕ}
use procurement_automation.Units.{Dimension, UnitDefinition, same_dimension}
use procurement_automation.Units.Normalize.{normalize_uom, unit_by_code}

-- `AlternateUnit`: `factor` base units to one `alt_uom`.
pub record AlternateUnit : Type 0 where
  pub alt_uom : Codes
  pub factor : Decimal
  pub base_uom : Codes

-- `_alternates`, by the code of the alternate unit.
abbrev pub Alternates : Type 0
Alternates = List (Codes × AlternateUnit)

unfoldable pub alternate_of : Alternates → Codes → Option AlternateUnit
unfolding eq_codes
alternate_of [] code = none
alternate_of ((c, alt) ∷ rest) code = if eq_codes c code then some alt else alternate_of rest code

unfoldable pub put_alternate : Alternates → Codes → AlternateUnit → Alternates
unfolding eq_codes
put_alternate [] code alt = (code, alt) ∷ []
put_alternate ((c, old) ∷ rest) code alt =
    if eq_codes c code then (c, alt) ∷ rest else (c, old) ∷ put_alternate rest code alt

infixl 5 ◌>>=◌
abbrev pub ◌>>=◌ : {A B : Type 0} → Result A → (A → Result B) → Result B
ok a >>= f = f a
err e >>= f = err e

unfoldable pub normal_alternate : Unicode → AlternateUnit → Result AlternateUnit
normal_alternate u alt = do
  code ← normalize_uom u alt.alt_uom
  base ← normalize_uom u alt.base_uom
  ok (record { alt_uom = code; factor = alt.factor; base_uom = base })

-- `__init__`, from the rest of the dictionary given and what is stored so far
unfoldable pub init_from : Unicode → Alternates → Alternates → Result Alternates
unfolding normal_alternate put_alternate
init_from u [] stored = ok stored
init_from u ((code, alt) ∷ rest) stored = do
  key ← normalize_uom u code
  value ← normal_alternate u alt
  init_from u rest (put_alternate stored key value)

-- How a call of `factor` ends: `refused` is `UnitConversionError`; `endless` is that the calls go
-- deeper than the fuel, which is the interpreter's recursion limit; `failed` is any other error.
pub data Factor : Type 0 where
  value : Decimal → Factor
  refused endless failed : Factor

abbrev pub value_of : Option Decimal → Factor
value_of none = failed
value_of (some d) = value d

abbrev pub scale_by : Decimal → Factor → Factor → Factor
scale_by by (value v) other = value (Decimal.mul by v)
scale_by by refused other = other
scale_by by endless other = endless
scale_by by failed other = failed

abbrev pub divide_by : Decimal → Factor → Factor
divide_by by (value v) = value_of (Decimal.div v by)
divide_by by other = other

abbrev pub is_zero : Decimal → Bool
is_zero d = Decimal.eq d (of_ℕ 0)

-- `_bridge`; `refused` is its `None`, and `next` the calls that it makes of `factor`.
unfoldable pub reverse_bridge : (Codes → Codes → Factor) → Option AlternateUnit → Codes → Factor
reverse_bridge next none src = refused
reverse_bridge next (some alt) src =
    if is_zero alt.factor then refused else divide_by alt.factor (next src alt.base_uom)

unfoldable pub bridge :
    (Codes → Codes → Factor) → Option AlternateUnit → Option AlternateUnit → Codes → Codes → Factor
bridge next none back src dst = reverse_bridge next back src
bridge next (some alt) back src dst =
    scale_by alt.factor (next alt.base_uom dst) (reverse_bridge next back src)

abbrev pub is_packaging : Dimension → Bool
is_packaging Dimension.packaging = true
is_packaging _ = false

-- One of the two units is on an affine scale.
abbrev pub is_affine : UnitDefinition → UnitDefinition → Bool
is_affine s d = not (is_zero s.offset) || not (is_zero d.offset)

abbrev pub is_ratio : UnitDefinition → UnitDefinition → Bool
is_ratio s d = same_dimension s.dimension d.dimension && not (is_packaging s.dimension)

-- `factor` between two units of the table that differ; `bridged` is the call of `_bridge`.
unfoldable pub factor_between : Option UnitDefinition → Option UnitDefinition → Factor → Factor
factor_between (some s) (some d) bridged =
    if is_affine s d
    then refused
    else if is_ratio s d
    then value_of (Decimal.div s.to_base d.to_base)
    else bridged
factor_between _ _ bridged = failed

abbrev pub factor_step :
    (Codes → Codes → Factor) → Alternates → Result Codes → Result Codes → Factor
factor_step next alternates (ok src) (ok dst) =
    if eq_codes src dst
    then value (of_ℕ 1)
    else factor_between (unit_by_code src) (unit_by_code dst)
        (bridge next (alternate_of alternates src) (alternate_of alternates dst) src dst)
factor_step next alternates _ _ = refused

-- `factor`, with the depth of calls that the interpreter allows
unfoldable pub factor : ℕ → Unicode → Alternates → Codes → Codes → Factor
factor zero u alternates from to = endless
factor (suc depth) u alternates from to =
    factor_step (factor depth u alternates) alternates (normalize_uom u from) (normalize_uom u to)

-- value -> base -> target, for scales with an additive term
unfoldable pub convert_affine : Decimal → UnitDefinition → UnitDefinition → Factor
convert_affine quantity s d =
    if not (same_dimension s.dimension d.dimension)
    then refused
    else (let in_base = Decimal.add (Decimal.mul quantity s.to_base) s.offset in
        value_of (Decimal.div (Decimal.sub in_base d.offset) d.to_base))

abbrev pub convert_between :
    Decimal → Option UnitDefinition → Option UnitDefinition → Factor → Factor
convert_between quantity (some s) (some d) by =
    if is_affine s d then convert_affine quantity s d else scale_by quantity by refused
convert_between quantity _ _ by = failed

abbrev pub convert_step : Decimal → Result Codes → Result Codes → (Codes → Codes → Factor) → Factor
convert_step quantity (ok src) (ok dst) by =
    if eq_codes src dst
    then value quantity
    else convert_between quantity (unit_by_code src) (unit_by_code dst) (by src dst)
convert_step quantity _ _ by = refused

-- `convert`
unfoldable pub convert : ℕ → Unicode → Alternates → Decimal → Codes → Codes → Factor
unfolding convert_affine
convert depth u alternates quantity from to =
    convert_step quantity (normalize_uom u from) (normalize_uom u to) (factor depth u alternates)

abbrev price_by : Decimal → Decimal → Factor → Factor
price_by price per (value by) =
    if is_zero by
    then refused
    else elim (Decimal.div price per) [ none ↦ failed | some p ↦ value_of (Decimal.div p by) ]
price_by price per other = other

-- `convert_price`
unfoldable pub convert_price : ℕ → Unicode → Alternates → Decimal → Codes → Codes → Decimal → Factor
convert_price depth u alternates price from to per =
    if Decimal.le per (of_ℕ 0)
    then refused
    else price_by price per (factor depth u alternates from to)

merge_alternates : Unicode → Alternates → Alternates → Result Alternates
unfolding put_alternate
merge_alternates u [] stored = ok stored
merge_alternates u ((code, alt) ∷ rest) stored = do
  key ← normalize_uom u code
  merge_alternates u rest (put_alternate stored key alt)

-- `with_alternates`
unfoldable pub with_alternates : Unicode → Alternates → Alternates → Result Alternates
unfolding merge_alternates init_from
with_alternates u stored more = do merged ← merge_alternates u more stored; init_from u merged []

-- What `can_convert` answers of a call of `factor`; none is an error that it passes on.
abbrev can_of : Factor → Option Bool
can_of (value v) = some true
can_of refused = some false
can_of _ = none

unfoldable pub can_convert : ℕ → Unicode → Alternates → Codes → Codes → Option Bool
unfolding factor
can_convert depth u alternates from to = can_of (factor depth u alternates from to)
