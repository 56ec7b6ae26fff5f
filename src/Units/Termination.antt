-- ===== src/Units/Termination.antt =====
-- How deep the calls of `factor` and `_bridge` go.
use procurement_automation.Prelude.{ℕ, zero, suc, ◌≡◌, ◌≢◌, refl, sym, ◌∙◌, false, none, some, []}
use procurement_automation.Prelude.Text.{Codes, Unicode, eq_codes}
use procurement_automation.Errors.{ok}
use procurement_automation.Units.{UnitDefinition}
use procurement_automation.Units.Normalize.{normalize_uom, unit_by_code}
use procurement_automation.Units.Converter.{
  Alternates, AlternateUnit, Factor, alternate_of, bridge, factor_between, factor, is_affine,
  is_ratio, init_from,
}
use procurement_automation.Units.Stored.{BasesAreNormal, init_from-BasesAreNormal}
use procurement_automation.Units.Ends.{bridge-ends, factor-ends}

-- No base unit is itself an alternate unit of the material.
abbrev pub IsFlat : Alternates → Type 0
IsFlat alternates =
    (c : Codes) (alt : AlternateUnit)
    → alternate_of alternates c ≡ some alt
    → alternate_of alternates alt.base_uom ≡ none

codes-injective : {a b : Codes} → ok a ≡ ok b → a ≡ b
codes-injective h = cc

module _ (u : Unicode) (alternates : Alternates) (normal : BasesAreNormal u alternates)
    (flat : IsFlat alternates) where
  -- A code of the table that is no alternate unit of the material.
  abbrev IsPlain : Codes → Type 0
  IsPlain code = (normalize_uom u code ≡ ok code) × (alternate_of alternates code ≡ none)

  base-IsPlain :
      (c : Codes) (alt : AlternateUnit)
      → alternate_of alternates c ≡ some alt
      → IsPlain alt.base_uom
  base-IsPlain c alt e = (normal c alt e, flat c alt e)

  plain-no_alternate :
      (code src : Codes) (alt : AlternateUnit)
      → IsPlain code
      → normalize_uom u code ≡ ok src
      → alternate_of alternates src ≢ some alt
  plain-no_alternate code src alt (h, k) p e =
      let same = codes-injective (sym h ∙ p) in cc (rw (← same) at e)

  plain_pair-ends :
      (n : ℕ) (from to : Codes)
      → IsPlain from
      → IsPlain to
      → factor (suc n) u alternates from to ≢ Factor.endless
  plain_pair-ends n from to f t = factor-ends n u alternates from to λ src dst p q.
      bridge-ends (factor n u alternates) (alternate_of alternates src)
        (alternate_of alternates dst) src dst (λ alt e _. plain-no_alternate from src alt f p e)
        (λ alt e _. plain-no_alternate to dst alt t q e)

  plain_first-ends :
      (n : ℕ) (from to : Codes)
      → IsPlain from
      → factor (suc (suc n)) u alternates from to ≢ Factor.endless
  plain_first-ends n from to f = factor-ends (suc n) u alternates from to λ src dst p q.
      bridge-ends (factor (suc n) u alternates) (alternate_of alternates src)
        (alternate_of alternates dst) src dst (λ alt e _. plain-no_alternate from src alt f p e)
        (λ alt e.
          rw (← codes-injective (sym f.0 ∙ p))
            (plain_pair-ends n from alt.base_uom f (base-IsPlain dst alt e)))

  plain_second-ends :
      (n : ℕ) (from to : Codes)
      → IsPlain to
      → factor (suc (suc n)) u alternates from to ≢ Factor.endless
  plain_second-ends n from to t = factor-ends (suc n) u alternates from to λ src dst p q.
      bridge-ends (factor (suc n) u alternates) (alternate_of alternates src)
        (alternate_of alternates dst) src dst
        (λ alt e.
          rw (← codes-injective (sym t.0 ∙ q))
            (plain_pair-ends n alt.base_uom to (base-IsPlain src alt e) t))
        (λ alt e _. plain-no_alternate to dst alt t q e)

  flat-ends :
      (n : ℕ) (from to : Codes) → factor (suc (suc (suc n))) u alternates from to ≢ Factor.endless
  flat-ends n from to = factor-ends (suc (suc n)) u alternates from to λ src dst p q.
      bridge-ends (factor (suc (suc n)) u alternates) (alternate_of alternates src)
        (alternate_of alternates dst) src dst
        (λ alt e. plain_first-ends n alt.base_uom dst (base-IsPlain src alt e))
        (λ alt e. plain_second-ends n src alt.base_uom (base-IsPlain dst alt e))

none-BasesAreNormal : (u : Unicode) → BasesAreNormal u []
unfolding alternate_of
none-BasesAreNormal u c alt e = cc

-- A converter that was built from any dictionary and in which no base unit is itself an alternate
-- unit answers every question within three nested calls of `factor`, so its recursion ends.
pub factor_terminates :
    (n : ℕ) (u : Unicode) (given alternates : Alternates) (from to : Codes)
    → init_from u given [] ≡ ok alternates
    → IsFlat alternates
    → factor (suc (suc (suc n))) u alternates from to ≢ Factor.endless
factor_terminates n u given alternates from to e flat =
    flat-ends u alternates
      (init_from-BasesAreNormal u given [] alternates (none-BasesAreNormal u) e) flat n from to

-- An alternate unit whose base unit is the unit itself makes `factor` call itself without end, at
-- every depth, for every target to which neither a ratio nor an affine scale leads.
pub self_alternate-endless :
    (depth : ℕ) (u : Unicode) (alternates : Alternates) (src dst : Codes) (alt : AlternateUnit)
    (s d : UnitDefinition)
    → alternate_of alternates src ≡ some alt
    → alt.base_uom ≡ src
    → normalize_uom u src ≡ ok src
    → normalize_uom u dst ≡ ok dst
    → eq_codes src dst ≡ false
    → unit_by_code src ≡ some s
    → unit_by_code dst ≡ some d
    → is_affine s d ≡ false
    → is_ratio s d ≡ false
    → factor depth u alternates src dst ≡ Factor.endless
unfolding factor factor_between bridge
self_alternate-endless zero u alternates src dst alt s d a b n m o p q f r = refl
self_alternate-endless (suc depth) u alternates src dst alt s d a b n m o p q f r =
    rw
      (
        n,
        m,
        o,
        p,
        q,
        f,
        r,
        a,
        b,
        self_alternate-endless depth u alternates src dst alt s d a b n m o p q f r,
      )
      refl
