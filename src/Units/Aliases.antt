-- ===== src/Units/Aliases.antt =====
-- `_ALIASES` (procureguard/domain/units.py): what suppliers write, and the code it stands for.
use procurement_automation.Prelude.{List, [], ◌∷◌, String}
use procurement_automation.Prelude.Text.{Codes, codes}

unfoldable pub aliases : List (Codes × String)
aliases =
    (codes "EACH", "EA")
    ∷ (codes "EACHES", "EA")
    ∷ (codes "PCS", "PC")
    ∷ (codes "PIECE", "PC")
    ∷ (codes "PIECES", "PC")
    ∷ (codes "UNIT", "EA")
    ∷ (codes "UNITS", "EA")
    ∷ (codes "NOS", "NO")
    ∷ (codes "DOZEN", "DZ")
    ∷ (codes "KGS", "KG")
    ∷ (codes "KILOGRAM", "KG")
    ∷ (codes "KILOGRAMS", "KG")
    ∷ (codes "KILO", "KG")
    ∷ (codes "GRAM", "G")
    ∷ (codes "GRAMS", "G")
    ∷ (codes "GMS", "G")
    ∷ (codes "TONNE", "TO")
    ∷ (codes "TONNES", "TO")
    ∷ (codes "MT", "TO")
    ∷ (codes "METRIC TON", "TO")
    ∷ (codes "POUND", "LB")
    ∷ (codes "POUNDS", "LB")
    ∷ (codes "LBS", "LB")
    ∷ (codes "METER", "M")
    ∷ (codes "METERS", "M")
    ∷ (codes "METRE", "M")
    ∷ (codes "METRES", "M")
    ∷ (codes "MTRS", "M")
    ∷ (codes "MILLIMETER", "MM")
    ∷ (codes "MILLIMETRE", "MM")
    ∷ (codes "CENTIMETER", "CM")
    ∷ (codes "FOOT", "FT")
    ∷ (codes "FEET", "FT")
    ∷ (codes "INCH", "IN")
    ∷ (codes "INCHES", "IN")
    ∷ (b'"' ∷ [], "IN")
    ∷ (codes "SQM", "M2")
    ∷ (codes "SQ M", "M2")
    ∷ (codes "SQ.M", "M2")
    ∷ (codes "SQFT", "FT2")
    ∷ (codes "LITER", "L")
    ∷ (codes "LITERS", "L")
    ∷ (codes "LITRE", "L")
    ∷ (codes "LITRES", "L")
    ∷ (codes "LTR", "L")
    ∷ (codes "CUBIC METER", "M3")
    ∷ (codes "CBM", "M3")
    ∷ (codes "HOUR", "H")
    ∷ (codes "HOURS", "H")
    ∷ (codes "HRS", "H")
    ∷ (codes "HR", "H")
    ∷ (codes "DAYS", "DAY")
    ∷ (codes "CALENDAR DAYS", "DAY")
    ∷ (codes "WORKING DAYS", "DAY")
    ∷ (codes "WEEKS", "WEEK")
    ∷ (codes "WKS", "WEEK")
    ∷ (codes "MONTHS", "MONTH")
    ∷ (codes "MTH", "MONTH")
    ∷ (codes "MTHS", "MONTH")
    ∷ (codes "YEARS", "YEAR")
    ∷ (codes "YRS", "YEAR")
    ∷ (codes "YR", "YEAR")
    ∷ (codes "BOXES", "BOX")
    ∷ (codes "CARTON", "CAR")
    ∷ (codes "CARTONS", "CAR")
    ∷ (codes "PACK", "PAC")
    ∷ (codes "PACKET", "PAC")
    ∷ (codes "SETS", "SET")
    ∷ (codes "ROLL", "ROL")
    ∷ (codes "ROLLS", "ROL")
    ∷ (codes "PALLET", "PAL")
    ∷ (codes "PALLETS", "PAL")
    ∷ (codes "DRUM", "DR")
    ∷ (codes "DRUMS", "DR")
    ∷ (codes "BAGS", "BAG")
    ∷ (codes "BARG", "BAR")
    ∷ (codes "BARA", "BAR")
    ∷ (codes "MILLIBAR", "MBAR")
    ∷ (codes "PASCAL", "PA")
    ∷ (codes "KILOPASCAL", "KPA")
    ∷ (codes "MEGAPASCAL", "MPA")
    ∷ (codes "N/MM2", "MPA")
    ∷ (codes "N/MM²", "MPA")
    ∷ (codes "LBF/IN2", "PSI")
    ∷ (codes "°C", "C")
    ∷ (codes "DEGC", "C")
    ∷ (codes "DEG C", "C")
    ∷ (codes "CELSIUS", "C")
    ∷ (codes "°F", "F")
    ∷ (codes "DEGF", "F")
    ∷ (codes "DEG F", "F")
    ∷ (codes "FAHRENHEIT", "F")
    ∷ (codes "KELVIN", "K")
    ∷ (codes "NEWTON", "N")
    ∷ (codes "KILONEWTON", "KN")
    ∷ (codes "NEWTON METRE", "NM")
    ∷ (codes "NEWTON METER", "NM")
    ∷ (codes "N M", "NM")
    ∷ (codes "LB-FT", "LBFT")
    ∷ (codes "FT-LB", "LBFT")
    ∷ (codes "WATT", "W")
    ∷ (codes "WATTS", "W")
    ∷ (codes "KILOWATT", "KW")
    ∷ (codes "VOLT", "V")
    ∷ (codes "VOLTS", "V")
    ∷ (codes "AMP", "A")
    ∷ (codes "AMPS", "A")
    ∷ (codes "AMPERE", "A")
    ∷ (codes "HERTZ", "HZ")
    ∷ (codes "REV/MIN", "RPM")
    ∷ (codes "M3/H", "M3H")
    ∷ (codes "M³/H", "M3H")
    ∷ (codes "L/MIN", "LPM")
    ∷ (codes "PERCENT", "PCT")
    ∷ (codes "%", "PCT")
    ∷ (codes "MICRON", "UM")
    ∷ (codes "MICROMETRE", "UM")
    ∷ (codes "MICROMETER", "UM")
    ∷ (codes "µM", "UM")
    ∷ (codes "DEGREE", "DEG")
    ∷ (codes "DEGREES", "DEG")
    ∷ []
