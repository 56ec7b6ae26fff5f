-- ===== src/Scenarios/Quantities.antt =====
-- Units and their conversion.
use procurement_automation.Prelude.{
  ◌≡◌, ◌≢◌, ℕ, ◌⊎◌, inl, inr, Bool-cases, refl, true, false, some, [], ◌∷◌, String,
}
use procurement_automation.Prelude.Text.{codes, eq_codes}
use procurement_automation.Errors.{ok}
use procurement_automation.Int
use procurement_automation.Decimal
use procurement_automation.Decimal.{Decimal, of_ℕ, dec}
use procurement_automation.Units.{Dimension, UnitDefinition, same_dimension}
use procurement_automation.Units.Normalize.{normalize_uom, unit_by_code}
use procurement_automation.Units.Normalize.Stable.{is_known, normalize_uom_stable}
use procurement_automation.Units.Converter.{
  factor_between, bridge, is_affine, is_ratio, AlternateUnit, Alternates, Factor, init_from, factor,
  convert, alternate_of,
}
use procurement_automation.Units.Safety.{IsLinear, factor-IsLinear}
use procurement_automation.Units.Termination.{IsFlat, factor_terminates, self_alternate-endless}
use procurement_automation.Scenarios.{ascii}

-- The quotients that the table of units writes out.
quotients :
    (Decimal.div (of_ℕ 5) (of_ℕ 9) ≡ some (dec (Int.pos 5555555555555555555555555556) 28))
    × (Decimal.div (of_ℕ 1) (of_ℕ 60) ≡ some (dec (Int.pos 1666666666666666666666666667) 29))
    × (Decimal.div (of_ℕ 1000) (of_ℕ 60) ≡ some (dec (Int.pos 1666666666666666666666666667) 26))
unfolding Decimal.div
quotients = (refl, refl, refl)

square_metres : normalize_uom ascii (codes " sq.m ") ≡ ok (codes "M2")
unfolding normalize_uom
square_metres = refl

boiling :
    convert 3 ascii [] (of_ℕ 100) (codes "degC") (codes "K")
    ≡ Factor.value (dec (Int.pos 3731500000000000000000000000) 25)
unfolding convert normalize_uom Decimal.eq same_dimension Decimal.div Decimal.sub Decimal.mul
    Decimal.add unit_by_code
boiling = refl

normalize_uom_stable_example :
    (is_known (codes "M2") ≡ true) × (normalize_uom ascii (codes "M2") ≡ ok (codes "M2"))
normalize_uom_stable_example =
    normalize_uom_stable ascii (codes " sq.m ") (codes "M2") square_metres

alternate-injective : {a b : AlternateUnit} → some a ≡ some b → a ≡ b
alternate-injective h = cc

-- A box holds 25 pieces.
abbrev box : AlternateUnit
box = record { alt_uom = codes "BOX"; factor = of_ℕ 25; base_uom = codes "EA" }

abbrev boxes : Alternates
boxes = (codes "BOX", box) ∷ []

boxes_stored : init_from ascii boxes [] ≡ ok boxes
unfolding init_from normalize_uom
boxes_stored = refl

abbrev in_hundreds : Decimal
in_hundreds = dec (Int.pos 2500000000000000000000000000) 28

-- A quarter of a hundred; the quotient 1 / 100 fills the 28 digits.
box_hundreds : factor 3 ascii boxes (codes "BOX") (codes "HUN") ≡ Factor.value in_hundreds
unfolding factor normalize_uom factor_between Decimal.eq same_dimension bridge alternate_of
    Decimal.div Decimal.mul
box_hundreds = refl

abbrev defined : String → Dimension → ℕ → UnitDefinition
defined code dimension to_base = record {
  code = code;
  dimension = dimension;
  to_base = of_ℕ to_base;
  offset = of_ℕ 0;
}

box_defined : unit_by_code (codes "BOX") ≡ some (defined "BOX" Dimension.packaging 1)
unfolding unit_by_code
box_defined = refl

hundred_defined : unit_by_code (codes "HUN") ≡ some (defined "HUN" Dimension.count 100)
unfolding unit_by_code
hundred_defined = refl

kilogram_defined : unit_by_code (codes "KG") ≡ some (defined "KG" Dimension.mass 1)
unfolding unit_by_code
kilogram_defined = refl

piece_defined : unit_by_code (codes "EA") ≡ some (defined "EA" Dimension.count 1)
unfolding unit_by_code
piece_defined = refl

normal :
    (normalize_uom ascii (codes "BOX") ≡ ok (codes "BOX"))
    × (normalize_uom ascii (codes "HUN") ≡ ok (codes "HUN"))
    × (normalize_uom ascii (codes "EA") ≡ ok (codes "EA"))
    × (normalize_uom ascii (codes "KG") ≡ ok (codes "KG"))
unfolding normalize_uom
normal = (refl, refl, refl, refl)

factor-IsLinear_example :
    (codes "BOX" ≡ codes "HUN")
    ⊎ IsLinear boxes
        (codes "BOX")
        (codes "HUN")
        (defined "BOX" Dimension.packaging 1)
        (defined "HUN" Dimension.count 100)
factor-IsLinear_example =
    factor-IsLinear 3 ascii boxes (codes "BOX") (codes "HUN") (codes "BOX") (codes "HUN")
      (defined "BOX" Dimension.packaging 1) (defined "HUN" Dimension.count 100) in_hundreds normal.0
      normal.1 box_defined hundred_defined box_hundreds

boxes-IsFlat : IsFlat boxes
unfolding alternate_of
boxes-IsFlat c alt e = elim (Bool-cases (eq_codes (codes "BOX") c)) [
  | inl p ↦ rw (← alternate-injective (rw p at e)) refl
  | inr p ↦ cc (rw p at e)
]

factor_terminates_example : factor 3 ascii boxes (codes "BOX") (codes "kg") ≢ Factor.endless
factor_terminates_example =
    factor_terminates 0 ascii boxes boxes (codes "BOX") (codes "kg") boxes_stored boxes-IsFlat

-- The base unit as an alternate unit of itself.
abbrev itself : AlternateUnit
itself = record { alt_uom = codes "EA"; factor = of_ℕ 1; base_uom = codes "EA" }

abbrev selfish : Alternates
selfish = (codes "EA", itself) ∷ []

selfish_found : alternate_of selfish (codes "EA") ≡ some itself
unfolding alternate_of
selfish_found = refl

pieces_and_mass :
    (is_affine (defined "EA" Dimension.count 1) (defined "KG" Dimension.mass 1) ≡ false)
    × (is_ratio (defined "EA" Dimension.count 1) (defined "KG" Dimension.mass 1) ≡ false)
unfolding Decimal.eq same_dimension
pieces_and_mass = (refl, refl)

self_alternate-endless_example :
    factor 1000 ascii selfish (codes "EA") (codes "KG") ≡ Factor.endless
self_alternate-endless_example =
    self_alternate-endless 1000 ascii selfish (codes "EA") (codes "KG") itself
      (defined "EA" Dimension.count 1) (defined "KG" Dimension.mass 1) selfish_found refl normal.2
      normal.3 (unfold eq_codes in refl) piece_defined kilogram_defined pieces_and_mass.0
      pieces_and_mass.1
