-- ===== src/Money/Fx/Lookup.antt =====
-- What a lookup reads of the rates that were added to a table.
use mathlib.Core.Path.{subst}
use mathlib.Core.List.{Permᴰ}
use mathlib.Core.List.Permᴰ
use procurement_automation.Prelude.{
  if◌then◌else◌, ◌++◌, ◌∙◌, sym, ◌&&◌, ℕ, ◌≤◌, leb, ◌≡◌, refl, inl, inr, Bool, true, false, Option,
  none, some, List, [], ◌∷◌, keep, All, Any, arith, Bool-cases,
}
use procurement_automation.Prelude.Text.{Codes, Unicode, eq_codes, eq_codes_sound, upper}
use procurement_automation.Money.Fx.{
  FxRate, FxRateTable, Buckets, insert_rate, add_to, add, add_many, direct_rate, same_pair,
  bucket_of, direct, rate_value,
}
use procurement_automation.Money.Fx.Latest.{
  IsSorted, AreSorted, add_many-AreSorted, direct_rate-IsChosen, IsLookup, IsChosen-IsLookup,
}

module _ (P : FxRate → Type 0) where
  All-perm : {xs ys : List FxRate} → Permᴰ xs ys → All P xs → All P ys
  All-perm Permᴰ.nil h = tt
  All-perm (Permᴰ.cons e p) h = (subst P e h.0, All-perm p h.1)
  All-perm (Permᴰ.swap e f) h = (subst P f h.1.0, (subst P e h.0, h.1.1))
  All-perm (Permᴰ.trans p q) h = All-perm q (All-perm p h)

  Any-perm : {xs ys : List FxRate} → Permᴰ xs ys → Any P xs → Any P ys
  Any-perm Permᴰ.nil h = h
  Any-perm (Permᴰ.cons e p) (inl h) = inl (subst P e h)
  Any-perm (Permᴰ.cons e p) (inr h) = inr (Any-perm p h)
  Any-perm (Permᴰ.swap e f) (inl h) = inr (inl (subst P e h))
  Any-perm (Permᴰ.swap e f) (inr (inl h)) = inl (subst P f h)
  Any-perm (Permᴰ.swap e f) (inr (inr h)) = inr (inr h)
  Any-perm (Permᴰ.trans p q) h = Any-perm q (Any-perm p h)

perm-empty : {xs ys : List FxRate} → Permᴰ xs ys → xs ≡ [] → ys ≡ []
perm-empty Permᴰ.nil h = refl
perm-empty (Permᴰ.cons e p) h = cc
perm-empty (Permᴰ.swap e f) h = cc
perm-empty (Permᴰ.trans p q) h = perm-empty q (perm-empty p h)

-- The order of the rates does not matter to a lookup.
IsLookup-perm :
    {xs ys : List FxRate} (date : ℕ) (chosen : Option FxRate)
    → Permᴰ xs ys
    → IsLookup xs date chosen
    → IsLookup ys date chosen
IsLookup-perm date none p h = perm-empty p h
IsLookup-perm date (some r) p (member, inl (le, h)) = (
  Any-perm (λ s. s ≡ r) p member,
  inl (le, All-perm (λ s. s.as_of ≤ date → s.as_of ≤ r.as_of) p h),
)
IsLookup-perm date (some r) p (member, inr (lt, h)) =
    (Any-perm (λ s. s ≡ r) p member, inr (lt, All-perm (λ s. r.as_of ≤ s.as_of) p h))

insert_rate-perm : (r : FxRate) (xs : List FxRate) → Permᴰ (insert_rate r xs) (r ∷ xs)
unfolding insert_rate
insert_rate-perm r [] = Permᴰ.refl (r ∷ [])
insert_rate-perm r (s ∷ rest) = elim (Bool-cases (leb s.as_of r.as_of)) [
  | inl e ↦ rw e (Permᴰ.trans (Permᴰ.cons refl (insert_rate-perm r rest)) (Permᴰ.swap refl refl))
  | inr e ↦ rw e (Permᴰ.refl (r ∷ s ∷ rest))
]

-- A rate that is inserted behind others might as well stand in front.
behind-perm : (xs ys : List FxRate) (r : FxRate) → Permᴰ (xs ++ insert_rate r ys) (r ∷ xs ++ ys)
behind-perm [] ys r = insert_rate-perm r ys
behind-perm (x ∷ xs) ys r =
    Permᴰ.trans (Permᴰ.cons refl (behind-perm xs ys r)) (Permᴰ.swap refl refl)

same_pair_sound : (a b c d : Codes) → same_pair a b c d ≡ true → (a ≡ c) × (b ≡ d)
same_pair_sound a b c d h = (eq_codes_sound a c (ground arith), eq_codes_sound b d (ground arith))

same_pair_left :
    (a b a' b' c d : Codes) → same_pair a b a' b' ≡ true → same_pair a b c d ≡ same_pair a' b' c d
same_pair_left a b a' b' c d h = let (e, f) = same_pair_sound a b a' b' h in rw (e, f) refl

same_pair_right :
    (a b c d c' d' : Codes) → same_pair c d c' d' ≡ true → same_pair a b c d ≡ same_pair a b c' d'
same_pair_right a b c d c' d' h = let (e, f) = same_pair_sound c d c' d' h in rw (e, f) refl

-- What an addition does to the bucket of each pair.
bucket_of-add_to :
    (buckets : Buckets) (base quote c d : Codes) (r : FxRate)
    → bucket_of (add_to buckets base quote r) c d ≡ (
        if same_pair base quote c d
        then insert_rate r (bucket_of buckets c d)
        else bucket_of buckets c d)
unfolding bucket_of add_to insert_rate
bucket_of-add_to [] base quote c d r = refl
bucket_of-add_to ((b, q, rates) ∷ rest) base quote c d r =
    elim (Bool-cases (same_pair b q base quote)) [
      | inl e ↦
          let agree = same_pair_left b q base quote c d e in
          elim (Bool-cases (same_pair base quote c d)) [
            | inl g ↦ rw (e, agree ∙ g, g) refl
            | inr g ↦ rw (e, agree ∙ g, g) refl
          ]
      | inr e ↦ elim (Bool-cases (same_pair b q c d)) [
        | inl f ↦ elim (Bool-cases (same_pair base quote c d)) [
          | inl g ↦
              let clash : true ≡ false = sym (same_pair_right b q base quote c d g ∙ f) ∙ e in cc
          | inr g ↦ rw (e, f, g) refl
        ]
        | inr f ↦ rw (e, f) (bucket_of-add_to rest base quote c d r)
      ]
    ]

bucket_of-IsSorted :
    (buckets : Buckets) (c d : Codes) → AreSorted buckets → IsSorted (bucket_of buckets c d)
unfolding bucket_of
bucket_of-IsSorted [] c d h = tt
bucket_of-IsSorted ((b, q, rates) ∷ rest) c d h = elim (Bool-cases (same_pair b q c d)) [
  | inl e ↦ rw e h.0
  | inr e ↦ rw e (bucket_of-IsSorted rest c d h.1)
]

module _ (u : Unicode) (c d : Codes) where
  -- The rate is one from `c` to `d`.
  abbrev pub is_between : FxRate → Bool
  is_between r = eq_codes (upper u r.base) c && eq_codes (upper u r.quote) d

  added-perm :
      (rates : List FxRate) (table : FxRateTable)
      → Permᴰ
          (keep is_between rates ++ bucket_of table.rates c d)
          (bucket_of (add_many u rates table).rates c d)
  unfolding add_many add
  added-perm [] table = Permᴰ.refl (bucket_of table.rates c d)
  added-perm (r ∷ rates) table =
      let step = bucket_of-add_to table.rates (upper u r.base) (upper u r.quote) c d r in
      let later = added-perm rates (add u r table) in
      elim (Bool-cases (is_between r)) [
        | inl e ↦
            let here : bucket_of (add u r table).rates c d
                ≡ insert_rate r (bucket_of table.rates c d) =
              rw e at step in
            rw e (
              Permᴰ.trans
                (Permᴰ.symm (behind-perm (keep is_between rates) (bucket_of table.rates c d) r))
                (rw here at later))
        | inr e ↦
            let here : bucket_of (add u r table).rates c d ≡ bucket_of table.rates c d =
              rw e at step in
            rw e (rw here at later)
      ]

-- Whatever rates are added, in whatever order, to a table whose buckets are sorted, as those of an
-- empty one are: a lookup from one currency to another reads, of the rates that were added from that
-- one to that one and those that the table had, one that is in force on the date with none in force
-- that is later; before any is in force it reads an earliest one; and it finds nothing exactly if
-- there is none.
pub direct-IsLookup :
    (u : Unicode) (rates : List FxRate) (table : FxRateTable) (base quote : Codes) (date : ℕ)
    → AreSorted table.rates
    → (chosen : Option FxRate) × (direct (add_many u rates table) base quote date
        ≡ rate_value chosen)
      × IsLookup
          (keep (is_between u base quote) rates ++ bucket_of table.rates base quote)
          date
          chosen
unfolding direct
direct-IsLookup u rates table base quote date sorted =
    let bucket = bucket_of (add_many u rates table).rates base quote in
    let in_order =
      bucket_of-IsSorted (add_many u rates table).rates base quote
        (add_many-AreSorted u rates table sorted) in
    (
      direct_rate bucket date,
      refl,
      IsLookup-perm date (direct_rate bucket date)
          (Permᴰ.symm (added-perm u base quote rates table))
          (IsChosen-IsLookup bucket date (direct_rate bucket date) in_order
            (direct_rate-IsChosen bucket date in_order)),
    )
