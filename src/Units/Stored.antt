-- ===== src/Units/Stored.antt =====
-- The alternate units that a converter stores have base units of the table.
use procurement_automation.Prelude.{◌≡◌, refl, ◌⊎◌, inl, inr, some, [], ◌∷◌, Bool-cases}
use procurement_automation.Prelude.Text.{Codes, Unicode, eq_codes}
use procurement_automation.Errors.{Error, Result, ok, err}
use procurement_automation.Units.Normalize.{normalize_uom}
use procurement_automation.Units.Normalize.Stable.{normalize_uom_stable}
use procurement_automation.Units.Converter.{
  Alternates, AlternateUnit, alternate_of, put_alternate, init_from, normal_alternate,
}

-- Every base unit that is stored is a code of the table.
abbrev pub BasesAreNormal : Unicode → Alternates → Type 0
BasesAreNormal u alternates =
    (c : Codes) (alt : AlternateUnit)
    → alternate_of alternates c ≡ some alt
    → normalize_uom u alt.base_uom ≡ ok alt.base_uom

some-injective : {a b : AlternateUnit} → some a ≡ some b → a ≡ b
some-injective h = cc

-- What a dictionary gives after an insertion is the new entry or an old one.
put-cases :
    (stored : Alternates) (key : Codes) (new : AlternateUnit) (c : Codes) (alt : AlternateUnit)
    → alternate_of (put_alternate stored key new) c ≡ some alt
    → (new ≡ alt) ⊎ (alternate_of stored c ≡ some alt)
unfolding alternate_of put_alternate
put-cases [] key new c alt h = elim (Bool-cases (eq_codes key c)) [
  | inl p ↦ inl (some-injective (rw p at h))
  | inr p ↦ cc (rw p at h)
]
put-cases ((k, old) ∷ rest) key new c alt h = elim (Bool-cases (eq_codes k key)) [
  | inl p ↦ elim (Bool-cases (eq_codes k c)) [
    | inl q ↦ inl (some-injective (rw (p, q) at h))
    | inr q ↦ inr (rw q (rw (p, q) at h))
  ]
  | inr p ↦ elim (Bool-cases (eq_codes k c)) [
    | inl q ↦ inr (rw q (rw (p, q) at h))
    | inr q ↦ elim (put-cases rest key new c alt (rw (p, q) at h)) [
      | inl e ↦ inl e
      | inr e ↦ inr (rw q e)
    ]
  ]
]

pub Result-cases :
    {A : Type 0} (r : Result A) → ((a : A) × (r ≡ ok a)) ⊎ ((e : Error) × (r ≡ err e))
Result-cases (ok a) = inl (a, refl)
Result-cases (err e) = inr (e, refl)

alternate-injective : {a b : AlternateUnit} → ok a ≡ ok b → a ≡ b
alternate-injective h = cc

normal_alternate-IsNormal :
    (u : Unicode) (alt value : AlternateUnit)
    → normal_alternate u alt ≡ ok value
    → normalize_uom u value.base_uom ≡ ok value.base_uom
unfolding normal_alternate
normal_alternate-IsNormal u alt value h = elim (Result-cases (normalize_uom u alt.alt_uom)) [
  | inr (e, p) ↦ cc (rw p at h)
  | inl (code, p) ↦ elim (Result-cases (normalize_uom u alt.base_uom)) [
    | inr (e, q) ↦ cc (rw (p, q) at h)
    | inl (base, q) ↦
        rw (← alternate-injective (rw (p, q) at h)) (normalize_uom_stable u alt.base_uom base q).1
  ]
]

put-BasesAreNormal :
    (u : Unicode) (stored : Alternates) (key : Codes) (new : AlternateUnit)
    → BasesAreNormal u stored
    → normalize_uom u new.base_uom ≡ ok new.base_uom
    → BasesAreNormal u (put_alternate stored key new)
put-BasesAreNormal u stored key new h n c alt e = elim (put-cases stored key new c alt e) [
  | inl p ↦ rw (← p) n
  | inr p ↦ h c alt p
]

stored-injective : {a b : Alternates} → ok a ≡ ok b → a ≡ b
stored-injective h = cc

pub init_from-BasesAreNormal :
    (u : Unicode) (given stored alternates : Alternates)
    → BasesAreNormal u stored
    → init_from u given stored ≡ ok alternates
    → BasesAreNormal u alternates
unfolding init_from
init_from-BasesAreNormal u [] stored alternates h e = rw (← stored-injective e) h
init_from-BasesAreNormal u ((code, alt) ∷ rest) stored alternates h e =
    elim (Result-cases (normalize_uom u code)) [
      | inr (_, p) ↦ cc (rw p at e)
      | inl (key, p) ↦ elim (Result-cases (normal_alternate u alt)) [
        | inr (_, q) ↦ cc (rw (p, q) at e)
        | inl (value, q) ↦
            init_from-BasesAreNormal u rest (put_alternate stored key value) alternates
              (put-BasesAreNormal u stored key value h (normal_alternate-IsNormal u alt value q))
              (rw (p, q) at e)
      ]
    ]
