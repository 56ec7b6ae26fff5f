-- ===== src/Units/Safety.antt =====
-- Which factors a converter gives.
use procurement_automation.Prelude.{
  ℕ, zero, suc, ◌≡◌, ◌⊎◌, inl, inr, true, false, some, Bool-cases, Option-cases,
}
use procurement_automation.Prelude.Text.{Codes, Unicode, eq_codes, eq_codes_sound}
use procurement_automation.Errors.{ok}
use procurement_automation.Decimal.{Decimal}
use procurement_automation.Units.{UnitDefinition}
use procurement_automation.Units.Normalize.{normalize_uom, unit_by_code}
use procurement_automation.Units.Converter.{
  Alternates, AlternateUnit, Factor, alternate_of, bridge, reverse_bridge, factor_between, factor,
  is_affine, is_ratio,
}

-- The material has an alternate unit of the code.
abbrev HasAlternate : Alternates → Codes → Type 0
HasAlternate alternates code = (alt : AlternateUnit) × (alternate_of alternates code ≡ some alt)

-- Two units between which a single factor exists, apart from those of one code.
abbrev pub IsLinear : Alternates → Codes → Codes → UnitDefinition → UnitDefinition → Type 0
IsLinear alternates src dst s d =
    (is_affine s d ≡ false)
    × ((is_ratio s d ≡ true) ⊎ (HasAlternate alternates src ⊎ HasAlternate alternates dst))

bridge-HasAlternate :
    (next : Codes → Codes → Factor) (alternates : Alternates) (src dst : Codes) (v : Decimal)
    → bridge next (alternate_of alternates src) (alternate_of alternates dst) src dst
      ≡ Factor.value v
    → HasAlternate alternates src ⊎ HasAlternate alternates dst
unfolding bridge reverse_bridge
bridge-HasAlternate next alternates src dst v h =
    elim (Option-cases (alternate_of alternates src)) [
      | inr found ↦ inl found
      | inl e ↦ elim (Option-cases (alternate_of alternates dst)) [
        | inr found ↦ inr found
        | inl f ↦ cc (rw (e, f) at h)
      ]
    ]

between-IsLinear :
    (s d : UnitDefinition) (bridged : Factor) (v : Decimal)
    → factor_between (some s) (some d) bridged ≡ Factor.value v
    → (is_affine s d ≡ false) × ((is_ratio s d ≡ true) ⊎ (bridged ≡ Factor.value v))
unfolding factor_between
between-IsLinear s d bridged v h = elim (Bool-cases (is_affine s d)) [
  | inl a ↦ cc (rw a at h)
  | inr a ↦ elim (Bool-cases (is_ratio s d)) [
    | inl r ↦ (a, inl r)
    | inr r ↦ (a, inr (rw (a, r) at h))
  ]
]

-- When `factor` gives a value, the two units are the same, or neither has an offset and they are of
-- one dimension other than packaging, or the material has an alternate unit for one of them: no
-- factor comes from nowhere between dimensions, and none leads to or from degrees Celsius or
-- Fahrenheit.
pub factor-IsLinear :
    (depth : ℕ) (u : Unicode) (alternates : Alternates) (from to src dst : Codes)
    (s d : UnitDefinition) (v : Decimal)
    → normalize_uom u from ≡ ok src
    → normalize_uom u to ≡ ok dst
    → unit_by_code src ≡ some s
    → unit_by_code dst ≡ some d
    → factor depth u alternates from to ≡ Factor.value v
    → (src ≡ dst) ⊎ IsLinear alternates src dst s d
unfolding factor
factor-IsLinear zero u alternates from to src dst s d v f t g h e = cc
factor-IsLinear (suc depth) u alternates from to src dst s d v f t g h e =
    elim (Bool-cases (eq_codes src dst)) [
      | inl same ↦ inl (eq_codes_sound src dst same)
      | inr other ↦
          let (linear, found) =
            between-IsLinear s d
              (bridge (factor depth u alternates) (alternate_of alternates src)
                (alternate_of alternates dst) src dst)
              v (rw (f, t, other, g, h) at e) in
          inr (
            linear,
            elim found [
              | inl r ↦ inl r
              | inr b ↦ inr (bridge-HasAlternate (factor depth u alternates) alternates src dst v b)
            ],
          )
    ]
