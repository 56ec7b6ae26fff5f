-- ===== src/Units.antt =====
-- Units of measure (procureguard/domain/units.py).
pub mod Table
pub mod Aliases
pub mod Normalize
pub mod Converter
pub mod Safety
pub mod Stored
pub mod Ends
pub mod Termination
use procurement_automation.Prelude.{Bool, String, eq_of}
use procurement_automation.Decimal.{Decimal}

pub data Dimension : Type 0 where
  count mass length area volume time energy packaging pressure temperature force torque : Dimension
  power voltage current frequency flow angle ratio : Dimension

unfoldable pub Dimension-discrete : Discrete Dimension
Dimension-discrete = hlevel

unfoldable pub same_dimension : Dimension → Dimension → Bool
unfolding Dimension-discrete
same_dimension d e = eq_of Dimension-discrete d e

-- `UnitDefinition`, without its description.
pub record UnitDefinition : Type 0 where
  pub code : String
  pub dimension : Dimension
  pub to_base : Decimal
  pub offset : Decimal
