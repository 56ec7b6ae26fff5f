-- ===== src/Ranking/Order.antt =====
-- The order of bids, and that sorting by it sorts and loses none.
use mathlib.Core.List.{Perm}
use mathlib.Core.List.Perm
use procurement_automation.Prelude.{
  ◌≡◌, inl, inr, Bool, true, false, List, [], ◌∷◌, All, arith, Bool-cases,
}
use procurement_automation.Decimal.Order.{le_trans, le_total}
use procurement_automation.Ranking.{RankedBid, before, cheaper, insert_by, sort_by}

before_trans : (a b c : RankedBid) → before a b ≡ true → before b c ≡ true → before a c ≡ true
unfolding before
before_trans a b c h k = ground (arith, le_trans a.total_base b.total_base c.total_base)

before_total : (a b : RankedBid) → before a b ≡ false → before b a ≡ true
unfolding before
before_total a b h = ground (arith, le_total a.total_base b.total_base)

cheaper_trans : (a b c : RankedBid) → cheaper a b ≡ true → cheaper b c ≡ true → cheaper a c ≡ true
cheaper_trans a b c h k = le_trans a.total_base b.total_base c.total_base h k

cheaper_total : (a b : RankedBid) → cheaper a b ≡ false → cheaper b a ≡ true
cheaper_total a b h = ground (arith, le_total a.total_base b.total_base)

-- Every bid is in the relation to all that follow it.
abbrev pub AreAhead : (RankedBid → RankedBid → Type 0) → List RankedBid → Type 0
AreAhead R [] = Unit
AreAhead R (b ∷ rest) = All (R b) rest × AreAhead R rest

abbrev pub IsSorted : (RankedBid → RankedBid → Bool) → List RankedBid → Type 0
IsSorted le = AreAhead (λ b c. le b c ≡ true)

module _ (le : RankedBid → RankedBid → Bool) (P : RankedBid → Type 0) where
  All-insert_by : (b : RankedBid) (xs : List RankedBid) → P b → All P xs → All P (insert_by le b xs)
  unfolding insert_by
  All-insert_by b [] p h = (p, tt)
  All-insert_by b (c ∷ rest) p h = elim (Bool-cases (le b c)) [
    | inl e ↦ rw e (p, h)
    | inr e ↦ rw e (h.0, All-insert_by b rest p h.1)
  ]

  pub All-sort_by : (xs : List RankedBid) → All P xs → All P (sort_by le xs)
  unfolding sort_by
  All-sort_by [] h = tt
  All-sort_by (b ∷ rest) h = All-insert_by b (sort_by le rest) h.0 (All-sort_by rest h.1)

module _ (le : RankedBid → RankedBid → Bool)
    (trans : (a b c : RankedBid) → le a b ≡ true → le b c ≡ true → le a c ≡ true)
    (total : (a b : RankedBid) → le a b ≡ false → le b a ≡ true) where
  all_after :
      (b c : RankedBid) (rest : List RankedBid)
      → le b c ≡ true
      → All (λ d. le c d ≡ true) rest
      → All (λ d. le b d ≡ true) rest
  all_after b c [] h k = tt
  all_after b c (d ∷ rest) h k = (trans b c d h k.0, all_after b c rest h k.1)

  insert_by-IsSorted :
      (b : RankedBid) (xs : List RankedBid) → IsSorted le xs → IsSorted le (insert_by le b xs)
  unfolding insert_by
  insert_by-IsSorted b [] h = (tt, tt)
  insert_by-IsSorted b (c ∷ rest) h = elim (Bool-cases (le b c)) [
    | inl e ↦ rw e ((e, all_after b c rest e h.0), h)
    | inr e ↦ rw e (
      All-insert_by le (λ d. le c d ≡ true) b rest (total b c e) h.0,
      insert_by-IsSorted b rest h.1,
    )
  ]

  sorted : (xs : List RankedBid) → IsSorted le (sort_by le xs)
  unfolding sort_by
  sorted [] = tt
  sorted (b ∷ rest) = insert_by-IsSorted b (sort_by le rest) (sorted rest)

pub sort_by-before : (xs : List RankedBid) → IsSorted before (sort_by before xs)
sort_by-before = sorted before before_trans before_total

pub sort_by-cheaper : (xs : List RankedBid) → IsSorted cheaper (sort_by cheaper xs)
sort_by-cheaper = sorted cheaper cheaper_trans cheaper_total

module _ (le : RankedBid → RankedBid → Bool) where
  insert_by-perm : (b : RankedBid) (xs : List RankedBid) → Perm (insert_by le b xs) (b ∷ xs)
  unfolding insert_by
  insert_by-perm b [] = Perm.refl (b ∷ [])
  insert_by-perm b (c ∷ rest) = elim (Bool-cases (le b c)) [
    | inl e ↦ rw e (Perm.refl (b ∷ c ∷ rest))
    | inr e ↦ rw e (Perm.trans (Perm.cons c (insert_by-perm b rest)) (Perm.swap b c rest))
  ]

  -- A sorted list has the same bids.
  pub sort_by-perm : (xs : List RankedBid) → Perm (sort_by le xs) xs
  unfolding sort_by
  sort_by-perm [] = Perm.refl []
  sort_by-perm (b ∷ rest) =
      Perm.trans (insert_by-perm b (sort_by le rest)) (Perm.cons b (sort_by-perm rest))
