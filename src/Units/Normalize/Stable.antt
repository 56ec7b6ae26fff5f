-- ===== src/Units/Normalize/Stable.antt =====
-- Normalisation yields codes of the table, and leaves them as they are.
use procurement_automation.Prelude.{
  ◌≡◌, refl, ap, inl, inr, Bool, true, false, ◌&&◌, Option, none, some, List, [], ◌∷◌, String, All,
  if◌then◌else◌, arith, Bool-cases, Option-cases, is_empty,
}
use procurement_automation.Prelude.Text.{Codes, Unicode, codes, eq_codes, eq_codes_sound}
use procurement_automation.Errors.{Error, Result, ok, err}
use procurement_automation.Units.{UnitDefinition}
use procurement_automation.Units.Table.{units}
use procurement_automation.Units.Aliases.{aliases}
use procurement_automation.Units.Normalize.{
  find_in, unit_by_code, alias_in, clean, resolve, resolved, without, normalize_uom,
}

both : (a b : Bool) → (a && b) ≡ true → (a ≡ true) × (b ≡ true)
both a b h = ground arith

some-injective : {a b : String} → some a ≡ some b → a ≡ b
some-injective h = cc

codes-injective : {a b : Codes} → some a ≡ some b → a ≡ b
codes-injective h = cc

ok-injective : {a b : Codes} → ok a ≡ ok b → a ≡ b
ok-injective h = cc

-- The code of a definition is normal.
abbrev IsNormal : Unicode → UnitDefinition → Type 0
IsNormal u d = normalize_uom u (codes d.code) ≡ ok (codes d.code)

units-IsNormal : (u : Unicode) → All (IsNormal u) units
unfolding normalize_uom units
units-IsNormal u = ground arith

find_in-IsNormal :
    (u : Unicode) (ds : List UnitDefinition) (token : Codes) (d : UnitDefinition)
    → All (IsNormal u) ds
    → find_in ds token ≡ some d
    → normalize_uom u token ≡ ok token
unfolding find_in
find_in-IsNormal u [] token d h e = cc
find_in-IsNormal u (x ∷ ds) token d h e = elim (Bool-cases (eq_codes (codes x.code) token)) [
  | inl p ↦ rw (← eq_codes_sound (codes x.code) token p) h.0
  | inr p ↦ find_in-IsNormal u ds token d h.1 (rw p at e)
]

-- The table has the code.
abbrev pub is_known : Codes → Bool
is_known c = elim (unit_by_code c) [ none ↦ false | some d ↦ true ]

abbrev all_known : List (Codes × String) → Bool
all_known [] = true
all_known ((written, code) ∷ rest) = is_known (codes code) && all_known rest

aliases_known : all_known aliases ≡ true
unfolding unit_by_code aliases
aliases_known = refl

alias_in-is_known :
    (table : List (Codes × String)) (token : Codes) (code : String)
    → all_known table ≡ true
    → alias_in table token ≡ some code
    → is_known (codes code) ≡ true
unfolding alias_in
alias_in-is_known [] token code h e = cc
alias_in-is_known ((written, c) ∷ rest) token code h e =
    let (first, others) = both (is_known (codes c)) (all_known rest) h in
    elim (Bool-cases (eq_codes written token)) [
      | inl p ↦ rw (← some-injective (rw p at e)) first
      | inr p ↦ alias_in-is_known rest token code others (rw p at e)
    ]

known_of_some : (c : Codes) (d : UnitDefinition) → unit_by_code c ≡ some d → is_known c ≡ true
unfolding unit_by_code
known_of_some c d e = rw e refl

known-IsNormal : (u : Unicode) (c : Codes) → is_known c ≡ true → normalize_uom u c ≡ ok c
unfolding unit_by_code
known-IsNormal u c h = elim (Option-cases (unit_by_code c)) [
  | inl e ↦ cc (rw e at h)
  | inr (d, e) ↦ find_in-IsNormal u units c d (units-IsNormal u) e
]

resolve-is_known : (token c : Codes) → resolve token ≡ some c → is_known c ≡ true
unfolding resolve
resolve-is_known token c h = elim (Option-cases (unit_by_code token)) [
  | inr (d, e) ↦ rw (← codes-injective (rw e at h)) (known_of_some token d e)
  | inl e ↦ elim (Option-cases (alias_in aliases token)) [
    | inl f ↦ cc (rw (e, f) at h)
    | inr (code, f) ↦
        rw (← codes-injective (rw (e, f) at h))
          (alias_in-is_known aliases token code aliases_known f)
  ]
]

resolved-is_known :
    (first other : Option Codes) (c : Codes)
    → ((d : Codes) → first ≡ some d → is_known d ≡ true)
    → ((d : Codes) → other ≡ some d → is_known d ≡ true)
    → resolved first other ≡ ok c
    → is_known c ≡ true
resolved-is_known (some d) other c f g h = f c (ap some (ok-injective h))
resolved-is_known none (some d) c f g h = g c (ap some (ok-injective h))
resolved-is_known none none c f g h = cc

unless_empty :
    (empty : Bool) (r : Result Codes) (c : Codes)
    → (if empty then err Error.unit_conversion else r) ≡ ok c
    → r ≡ ok c
unless_empty true r c h = cc
unless_empty false r c h = h

normalize_uom-is_known :
    (u : Unicode) (raw c : Codes) → normalize_uom u raw ≡ ok c → is_known c ≡ true
unfolding normalize_uom
normalize_uom-is_known u raw c h =
    let token = clean u raw in
    resolved-is_known (resolve token) (resolve (without b' ' token)) c (resolve-is_known token)
      (resolve-is_known (without b' ' token))
      (unless_empty (is_empty token) (resolved (resolve token) (resolve (without b' ' token))) c h)

-- Whatever was written, a unit that is accepted becomes a code of the table, and normalising that
-- code again, which every later conversion does, leaves it as it is.
pub normalize_uom_stable :
    (u : Unicode) (raw c : Codes)
    → normalize_uom u raw ≡ ok c
    → (is_known c ≡ true) × (normalize_uom u c ≡ ok c)
normalize_uom_stable u raw c h =
    let known = normalize_uom-is_known u raw c h in (known, known-IsNormal u c known)
