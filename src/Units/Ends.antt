-- ===== src/Units/Ends.antt =====
-- A call of `factor` ends when the calls that its bridge makes end.
use procurement_automation.Prelude.{
  ℕ, suc, ◌≡◌, ◌≢◌, refl, inl, inr, Option, none, some, Bool-cases,
}
use procurement_automation.Prelude.Text.{Codes, Unicode, eq_codes}
use procurement_automation.Errors.{ok}
use procurement_automation.Decimal
use procurement_automation.Decimal.{Decimal, of_ℕ}
use procurement_automation.Units.{UnitDefinition}
use procurement_automation.Units.Normalize.{normalize_uom, unit_by_code}
use procurement_automation.Units.Converter.{
  Alternates, AlternateUnit, Factor, alternate_of, bridge, reverse_bridge, factor_between, factor,
  is_affine, is_ratio, scale_by, divide_by, value_of, is_zero,
}
use procurement_automation.Units.Stored.{Result-cases}

value_of-ends : (o : Option Decimal) → value_of o ≢ Factor.endless
value_of-ends none h = cc
value_of-ends (some d) h = cc

divide_by-ends : (by : Decimal) (f : Factor) → f ≢ Factor.endless → divide_by by f ≢ Factor.endless
divide_by-ends by (Factor.value v) h = value_of-ends (Decimal.div v by)
divide_by-ends by Factor.refused h = h
divide_by-ends by Factor.endless h = h
divide_by-ends by Factor.failed h = h

scale_by-ends :
    (by : Decimal) (f other : Factor)
    → f ≢ Factor.endless
    → other ≢ Factor.endless
    → scale_by by f other ≢ Factor.endless
scale_by-ends by (Factor.value v) other h k = λ e. cc
scale_by-ends by Factor.refused other h k = k
scale_by-ends by Factor.endless other h k = h
scale_by-ends by Factor.failed other h k = λ e. cc

reverse_bridge-ends :
    (next : Codes → Codes → Factor) (back : Option AlternateUnit) (src : Codes)
    → ((alt : AlternateUnit) → back ≡ some alt → next src alt.base_uom ≢ Factor.endless)
    → reverse_bridge next back src ≢ Factor.endless
unfolding reverse_bridge
reverse_bridge-ends next none src h = λ e. cc
reverse_bridge-ends next (some alt) src h = elim (Bool-cases (is_zero alt.factor)) [
  | inl z ↦ λ e. cc (rw z at e)
  | inr z ↦ rw z (divide_by-ends alt.factor (next src alt.base_uom) (h alt refl))
]

pub bridge-ends :
    (next : Codes → Codes → Factor) (forward back : Option AlternateUnit) (src dst : Codes)
    → ((alt : AlternateUnit) → forward ≡ some alt → next alt.base_uom dst ≢ Factor.endless)
    → ((alt : AlternateUnit) → back ≡ some alt → next src alt.base_uom ≢ Factor.endless)
    → bridge next forward back src dst ≢ Factor.endless
unfolding bridge
bridge-ends next none back src dst f b = reverse_bridge-ends next back src b
bridge-ends next (some alt) back src dst f b =
    scale_by-ends alt.factor (next alt.base_uom dst) (reverse_bridge next back src) (f alt refl)
      (reverse_bridge-ends next back src b)

between-ends :
    (s d : Option UnitDefinition) (bridged : Factor)
    → bridged ≢ Factor.endless
    → factor_between s d bridged ≢ Factor.endless
unfolding factor_between
between-ends none d bridged h = λ e. cc
between-ends (some s) none bridged h = λ e. cc
between-ends (some s) (some d) bridged h = elim (Bool-cases (is_affine s d)) [
  | inl a ↦ λ e. cc (rw a at e)
  | inr a ↦ elim (Bool-cases (is_ratio s d)) [
    | inl r ↦ rw (a, r) (value_of-ends (Decimal.div s.to_base d.to_base))
    | inr r ↦ rw (a, r) h
  ]
]

-- A call ends when the bridge that it may try ends.
pub factor-ends :
    (depth : ℕ) (u : Unicode) (alternates : Alternates) (from to : Codes)
    → ((src dst : Codes)
        → normalize_uom u from ≡ ok src
        → normalize_uom u to ≡ ok dst
        → bridge
            (factor depth u alternates)
            (alternate_of alternates src)
            (alternate_of alternates dst)
            src
            dst
          ≢ Factor.endless)
    → factor (suc depth) u alternates from to ≢ Factor.endless
unfolding factor
factor-ends depth u alternates from to h = elim (Result-cases (normalize_uom u from)) [
  | inr (_, p) ↦ λ e. cc (rw p at e)
  | inl (src, p) ↦ elim (Result-cases (normalize_uom u to)) [
    | inr (_, q) ↦ λ e. cc (rw (p, q) at e)
    | inl (dst, q) ↦ elim (Bool-cases (eq_codes src dst)) [
      | inl same ↦ λ e. cc (rw (p, q, same) at e)
      | inr other ↦
          rw (p, q, other)
            (between-ends (unit_by_code src) (unit_by_code dst)
              (bridge (factor depth u alternates) (alternate_of alternates src)
                (alternate_of alternates dst) src dst)
              (h src dst p q))
    ]
  ]
]
