-- ===== src/Scenarios.antt =====
-- Concrete runs: tests of the definitions, and each theorem at an input of the program.
pub mod Cases
pub mod Awards
pub mod Offers
pub mod Amounts
pub mod Quantities
pub mod Requisitions
pub mod Bids
pub mod Envelopes
pub mod Sealed
pub mod Gates
pub mod Workflows
pub mod Orders
use procurement_automation.Prelude.{false, [], ◌∷◌}
use procurement_automation.Prelude.Text.{Unicode}

-- A database without characters beyond ASCII: they are no letters and have no case.
abbrev pub ascii : Unicode
ascii = record {
  is_alpha_other = λ c. false;
  is_alnum_other = λ c. false;
  upper_other = λ c. c ∷ [];
  lower_other = λ c. c ∷ [];
}
