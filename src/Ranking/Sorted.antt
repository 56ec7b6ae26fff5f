-- ===== src/Ranking/Sorted.antt =====
-- What a ranking is like.
use mathlib.Core.List.{Perm}
use procurement_automation.Prelude.{
  ℕ, suc, ◌≡◌, refl, sym, ap, inl, inr, ◌⊎◌, true, false, not, some, List, [], ◌∷◌, keep, All,
  Bool-cases, Option-cases,
}
use procurement_automation.Decimal
use procurement_automation.Decimal.{Decimal}
use procurement_automation.Ranking.{
  RankedBid, PositionLabel, before, sort_by, delta_pct, number_from, number_bids, set_aside_all,
  is_qualified, cheaper, rank_candidates,
}
use procurement_automation.Ranking.Order.{AreAhead, sort_by-before, sort_by-cheaper, sort_by-perm}

-- What is said of a bid by its place: the position, the label, and what it is above L1.
abbrev pub IsPlaced : Decimal → ℕ → RankedBid → RankedBid → Type 0
IsPlaced l1 n b c =
    (d : Decimal) × (p : Decimal) × (Decimal.quantize 2 (Decimal.sub b.total_base l1) ≡ some d)
    × (delta_pct d l1 ≡ some p)
    × (c ≡ record b {
      position = n;
      position_label = PositionLabel.ranked n;
      delta_vs_l1_base = d;
      delta_vs_l1_pct = p;
    })

-- The second list is the first one, bid by bid, with places from `n` on.
abbrev pub ArePlaced : Decimal → ℕ → List RankedBid → List RankedBid → Type 0
ArePlaced l1 n [] [] = Unit
ArePlaced l1 n (b ∷ bs) (c ∷ cs) = IsPlaced l1 n b c × ArePlaced l1 (suc n) bs cs
ArePlaced l1 n _ _ = ⊥

-- The places of a ranked list, whose first bid is L1.
abbrev pub AreRanked : List RankedBid → List RankedBid → Type 0
AreRanked [] cs = cs ≡ []
AreRanked (b ∷ bs) cs = ArePlaced b.total_base 1 (b ∷ bs) cs

-- The second list is the first one, bid by bid, with position 0 and the label DQ.
abbrev pub AreSetAside : List RankedBid → List RankedBid → Type 0
AreSetAside [] [] = Unit
AreSetAside (b ∷ bs) (c ∷ cs) =
    (c ≡ record b { position = 0; position_label = PositionLabel.disqualified }) × AreSetAside bs cs
AreSetAside _ _ = ⊥

-- A complete offer is ahead of a partial one, and of two of a kind one that is not dearer.
abbrev pub IsAhead : RankedBid → RankedBid → Type 0
IsAhead b c =
    ((b.partial_offer ≡ false) × (c.partial_offer ≡ true))
    ⊎ ((b.partial_offer ≡ c.partial_offer) × (Decimal.le b.total_base c.total_base ≡ true))

abbrev pub IsNoDearer : RankedBid → RankedBid → Type 0
IsNoDearer b c = Decimal.le b.total_base c.total_base ≡ true

-- The ranked bids are the qualified candidates in an order, with their places; the others are the
-- rest of the candidates in an order, set aside.
pub record IsRanking (candidates bids aside : List RankedBid) : Type 0 where
  pub order : List RankedBid
  pub ahead : AreAhead IsAhead order
  pub are_qualified : Perm order (keep (λ b. b.technically_qualified) candidates)
  pub ranked : AreRanked order bids
  pub rest : List RankedBid
  pub no_dearer : AreAhead IsNoDearer rest
  pub are_unqualified : Perm rest (keep (λ b. not b.technically_qualified) candidates)
  pub set_aside : AreSetAside rest aside

list-injective : {a b : List RankedBid} → some a ≡ some b → a ≡ b
list-injective h = cc

number_from-ArePlaced :
    (n : ℕ) (l1 : Decimal) (bs cs : List RankedBid)
    → number_from n l1 bs ≡ some cs
    → ArePlaced l1 n bs cs
unfolding number_from
number_from-ArePlaced n l1 [] cs h = rw (← list-injective h) tt
number_from-ArePlaced n l1 (b ∷ bs) cs h =
    elim (Option-cases (Decimal.quantize 2 (Decimal.sub b.total_base l1))) [
      | inl e ↦ cc (rw e at h)
      | inr (d, e) ↦ elim (Option-cases (delta_pct d l1)) [
        | inl f ↦ cc (rw (e, f) at h)
        | inr (p, f) ↦ elim (Option-cases (number_from (suc n) l1 bs)) [
          | inl g ↦ cc (rw (e, f, g) at h)
          | inr (others, g) ↦
              rw (← list-injective (rw (e, f, g) at h))
                ((d, p, e, f, refl), number_from-ArePlaced (suc n) l1 bs others g)
        ]
      ]
    ]

number_bids-AreRanked : (bs cs : List RankedBid) → number_bids bs ≡ some cs → AreRanked bs cs
unfolding number_bids
number_bids-AreRanked [] cs h = sym (list-injective h)
number_bids-AreRanked (b ∷ bs) cs h = number_from-ArePlaced 1 b.total_base (b ∷ bs) cs h

set_aside_all-AreSetAside : (bs : List RankedBid) → AreSetAside bs (set_aside_all bs)
unfolding set_aside_all
set_aside_all-AreSetAside [] = tt
set_aside_all-AreSetAside (b ∷ bs) = (refl, set_aside_all-AreSetAside bs)

module _ (R S : RankedBid → RankedBid → Type 0) (implies : (b c : RankedBid) → R b c → S b c) where
  All-implied : (b : RankedBid) (cs : List RankedBid) → All (R b) cs → All (S b) cs
  All-implied b [] h = tt
  All-implied b (c ∷ cs) h = (implies b c h.0, All-implied b cs h.1)

  AreAhead-implied : (bs : List RankedBid) → AreAhead R bs → AreAhead S bs
  AreAhead-implied [] h = tt
  AreAhead-implied (b ∷ bs) h = (All-implied b bs h.0, AreAhead-implied bs h.1)

before-IsAhead : (b c : RankedBid) → before b c ≡ true → IsAhead b c
unfolding before
before-IsAhead b c h = elim (Bool-cases b.partial_offer) [
  | inl e ↦ elim (Bool-cases c.partial_offer) [
    | inl f ↦ inr (rw (e, f) refl, rw (e, f) at h)
    | inr f ↦ cc (rw (e, f) at h)
  ]
  | inr e ↦ elim (Bool-cases c.partial_offer) [
    | inl f ↦ inl (e, f)
    | inr f ↦ inr (rw (e, f) refl, rw (e, f) at h)
  ]
]

pair-injective : {x y : List RankedBid × List RankedBid} → some x ≡ some y → x ≡ y
pair-injective h = cc

-- When `rank` gives an order, the ranked bids are exactly the technically qualified candidates,
-- each once and otherwise unchanged: complete offers before partial ones and then by total, with
-- the positions 1, 2 and so on, the labels L1, L2 and so on, and the rounded difference and
-- percentage to the first one's total. The other candidates, each once and otherwise unchanged, are
-- set aside by total, with position 0 and the label DQ.
pub rank_candidates-IsRanking :
    (candidates bids aside : List RankedBid)
    → rank_candidates candidates ≡ some (bids, aside)
    → IsRanking candidates bids aside
unfolding rank_candidates
rank_candidates-IsRanking candidates bids aside h =
    let kept = keep is_qualified candidates in
    let dropped = keep (λ b. not (is_qualified b)) candidates in
    elim (Option-cases (number_bids (sort_by before kept))) [
      | inl e ↦ cc (rw e at h)
      | inr (cs, e) ↦
          let same = pair-injective (rw e at h) in
          rw
            (
              ← ap (λ (x : List RankedBid × List RankedBid). x.0) same,
              ← ap (λ (x : List RankedBid × List RankedBid). x.1) same,
            )
            (record {
              order = sort_by before kept;
              ahead =
                  AreAhead-implied (λ b c. before b c ≡ true) IsAhead before-IsAhead
                    (sort_by before kept) (sort_by-before kept);
              are_qualified = sort_by-perm before kept;
              ranked = number_bids-AreRanked (sort_by before kept) cs e;
              rest = sort_by cheaper dropped;
              no_dearer = sort_by-cheaper dropped;
              are_unqualified = sort_by-perm cheaper dropped;
              set_aside = set_aside_all-AreSetAside (sort_by cheaper dropped);
            })
    ]
