-- ===== src/Units/Table.antt =====
-- `_UNITS` (procureguard/domain/units.py): the codes, their dimensions and base factors. The
-- quotients 5 / 9, 1 / 60 and 1000 / 60 are written as the decimals of 28 digits that they are.
use procurement_automation.Prelude.{List, [], ◌∷◌, String}
use procurement_automation.Int.{pos}
use procurement_automation.Decimal.{Decimal, dec, of_ℕ}
use procurement_automation.Units.{Dimension, UnitDefinition}

abbrev scaled : String → Dimension → Decimal → UnitDefinition
scaled c d f = record { code = c; dimension = d; to_base = f; offset = of_ℕ 0 }

abbrev affine : String → Dimension → Decimal → Decimal → UnitDefinition
affine c d f o = record { code = c; dimension = d; to_base = f; offset = o }

unfoldable pub units : List UnitDefinition
units =
    scaled "EA" Dimension.count (of_ℕ 1)
    ∷ scaled "PC" Dimension.count (of_ℕ 1)
    ∷ scaled "NO" Dimension.count (of_ℕ 1)
    ∷ scaled "DZ" Dimension.count (of_ℕ 12)
    ∷ scaled "C62" Dimension.count (of_ℕ 1)
    ∷ scaled "HUN" Dimension.count (of_ℕ 100)
    ∷ scaled "TSD" Dimension.count (of_ℕ 1000)
    ∷ scaled "KG" Dimension.mass (of_ℕ 1)
    ∷ scaled "G" Dimension.mass (dec (pos 1) 3)
    ∷ scaled "MG" Dimension.mass (dec (pos 1) 6)
    ∷ scaled "TO" Dimension.mass (of_ℕ 1000)
    ∷ scaled "TON" Dimension.mass (of_ℕ 1000)
    ∷ scaled "LB" Dimension.mass (dec (pos 45359237) 8)
    ∷ scaled "OZ" Dimension.mass (dec (pos 28349523125) 12)
    ∷ scaled "M" Dimension.length (of_ℕ 1)
    ∷ scaled "MTR" Dimension.length (of_ℕ 1)
    ∷ scaled "MM" Dimension.length (dec (pos 1) 3)
    ∷ scaled "UM" Dimension.length (dec (pos 1) 6)
    ∷ scaled "CM" Dimension.length (dec (pos 1) 2)
    ∷ scaled "KM" Dimension.length (of_ℕ 1000)
    ∷ scaled "FT" Dimension.length (dec (pos 3048) 4)
    ∷ scaled "IN" Dimension.length (dec (pos 254) 4)
    ∷ scaled "YD" Dimension.length (dec (pos 9144) 4)
    ∷ scaled "M2" Dimension.area (of_ℕ 1)
    ∷ scaled "CM2" Dimension.area (dec (pos 1) 4)
    ∷ scaled "MM2" Dimension.area (dec (pos 1) 6)
    ∷ scaled "FT2" Dimension.area (dec (pos 9290304) 8)
    ∷ scaled "L" Dimension.volume (of_ℕ 1)
    ∷ scaled "ML" Dimension.volume (dec (pos 1) 3)
    ∷ scaled "M3" Dimension.volume (of_ℕ 1000)
    ∷ scaled "GAL" Dimension.volume (dec (pos 3785411784) 9)
    ∷ scaled "H" Dimension.time (of_ℕ 1)
    ∷ scaled "HUR" Dimension.time (of_ℕ 1)
    ∷ scaled "MIN" Dimension.time (dec (pos 16666666667) 12)
    ∷ scaled "DAY" Dimension.time (of_ℕ 24)
    ∷ scaled "WEEK" Dimension.time (of_ℕ 168)
    ∷ scaled "MONTH" Dimension.time (of_ℕ 730)
    ∷ scaled "YEAR" Dimension.time (of_ℕ 8760)
    ∷ scaled "KWH" Dimension.energy (of_ℕ 1)
    ∷ scaled "MWH" Dimension.energy (of_ℕ 1000)
    ∷ scaled "BOX" Dimension.packaging (of_ℕ 1)
    ∷ scaled "CAR" Dimension.packaging (of_ℕ 1)
    ∷ scaled "PAC" Dimension.packaging (of_ℕ 1)
    ∷ scaled "SET" Dimension.packaging (of_ℕ 1)
    ∷ scaled "ROL" Dimension.packaging (of_ℕ 1)
    ∷ scaled "PAL" Dimension.packaging (of_ℕ 1)
    ∷ scaled "DR" Dimension.packaging (of_ℕ 1)
    ∷ scaled "BAG" Dimension.packaging (of_ℕ 1)
    ∷ scaled "CTN" Dimension.packaging (of_ℕ 1)
    ∷ scaled "BAR" Dimension.pressure (of_ℕ 1)
    ∷ scaled "MBAR" Dimension.pressure (dec (pos 1) 3)
    ∷ scaled "PA" Dimension.pressure (dec (pos 1) 5)
    ∷ scaled "KPA" Dimension.pressure (dec (pos 1) 2)
    ∷ scaled "MPA" Dimension.pressure (of_ℕ 10)
    ∷ scaled "PSI" Dimension.pressure (dec (pos 689475729) 10)
    ∷ scaled "ATM" Dimension.pressure (dec (pos 101325) 5)
    ∷ scaled "K" Dimension.temperature (of_ℕ 1)
    ∷ affine "C" Dimension.temperature (of_ℕ 1) (dec (pos 27315) 2)
    ∷ affine "F" Dimension.temperature (dec (pos 5555555555555555555555555556) 28)
        (dec (pos 255372222222222) 12)
    ∷ scaled "N" Dimension.force (of_ℕ 1)
    ∷ scaled "KN" Dimension.force (of_ℕ 1000)
    ∷ scaled "LBF" Dimension.force (dec (pos 44482216153) 10)
    ∷ scaled "NM" Dimension.torque (of_ℕ 1)
    ∷ scaled "KNM" Dimension.torque (of_ℕ 1000)
    ∷ scaled "LBFT" Dimension.torque (dec (pos 135581794833) 11)
    ∷ scaled "W" Dimension.power (of_ℕ 1)
    ∷ scaled "KW" Dimension.power (of_ℕ 1000)
    ∷ scaled "MW" Dimension.power (of_ℕ 1000000)
    ∷ scaled "HP" Dimension.power (dec (pos 745699872) 6)
    ∷ scaled "V" Dimension.voltage (of_ℕ 1)
    ∷ scaled "MV" Dimension.voltage (dec (pos 1) 3)
    ∷ scaled "KV" Dimension.voltage (of_ℕ 1000)
    ∷ scaled "A" Dimension.current (of_ℕ 1)
    ∷ scaled "MA" Dimension.current (dec (pos 1) 3)
    ∷ scaled "HZ" Dimension.frequency (of_ℕ 1)
    ∷ scaled "KHZ" Dimension.frequency (of_ℕ 1000)
    ∷ scaled "RPM" Dimension.frequency (dec (pos 1666666666666666666666666667) 29)
    ∷ scaled "LPM" Dimension.flow (of_ℕ 1)
    ∷ scaled "GPM" Dimension.flow (dec (pos 3785411784) 9)
    ∷ scaled "M3H" Dimension.flow (dec (pos 1666666666666666666666666667) 26)
    ∷ scaled "CFM" Dimension.flow (dec (pos 28316846592) 9)
    ∷ scaled "PCT" Dimension.ratio (of_ℕ 1)
    ∷ scaled "DEG" Dimension.angle (of_ℕ 1)
    ∷ []
