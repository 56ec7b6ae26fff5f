-- ===== src/Ranking.antt =====
-- The order of bids (`BidRankingService.rank`, procureguard/application/bid_ranking.py): what it
-- does with the candidates once their totals are known. A label is data: `ranked 1` is "L1".
pub mod Order
pub mod Sorted
use procurement_automation.Prelude.{
  ℕ, suc, ◌+◌, Bool, true, false, not, ◌&&◌, ◌||◌, if◌then◌else◌, Option, none, some, List, [], ◌∷◌,
  String, keep,
}
use procurement_automation.Prelude.Chain.{◌>>=◌}
use procurement_automation.Decimal
use procurement_automation.Decimal.{Decimal, of_ℕ}

-- `position_label`
pub data PositionLabel : Type 0 where
  unset disqualified : PositionLabel
  ranked : ℕ → PositionLabel

-- `RankedBid`
pub record RankedBid : Type 0 where
  pub vendor_id : String
  pub vendor_name : String
  pub quotation_id : String
  pub position : ℕ
  pub position_label : PositionLabel
  pub total_base : Decimal
  pub landed_cost_base : Decimal
  pub tco_base : Decimal
  pub delta_vs_l1_base : Decimal
  pub delta_vs_l1_pct : Decimal
  pub delta_vs_benchmark_pct : Option Decimal
  pub technical_score : Option Decimal
  pub weighted_value_score : Option Decimal
  pub technically_qualified : Bool
  pub lines_covered : ℕ
  pub lines_total : ℕ
  pub partial_offer : Bool
  pub flags : List String
  pub notes : String

-- `(b.partial_offer, b.total_base)` at most `(c.partial_offer, c.total_base)`; False comes first.
abbrev pub pair_le : Bool → Bool → Bool → Bool
pair_le false true totals = true
pair_le true false totals = false
pair_le _ _ totals = totals

unfoldable pub before : RankedBid → RankedBid → Bool
before b c = pair_le b.partial_offer c.partial_offer (Decimal.le b.total_base c.total_base)

-- `sort` is stable: a bid goes in front of the later ones that are not less.
unfoldable pub insert_by :
    (RankedBid → RankedBid → Bool) → RankedBid → List RankedBid → List RankedBid
insert_by le b [] = b ∷ []
insert_by le b (c ∷ rest) =
    let later = insert_by le b rest in if le b c then b ∷ c ∷ rest else c ∷ later

unfoldable pub sort_by : (RankedBid → RankedBid → Bool) → List RankedBid → List RankedBid
unfolding insert_by
sort_by le [] = []
sort_by le (b ∷ rest) = insert_by le b (sort_by le rest)

-- The percentage above L1, of a total that is not 0.
unfoldable pub delta_pct : Decimal → Decimal → Option Decimal
delta_pct delta l1_total =
    if Decimal.eq l1_total (of_ℕ 0)
    then some (of_ℕ 0)
    else (do ratio ← Decimal.div delta l1_total; Decimal.quantize 4 (Decimal.mul ratio (of_ℕ 100)))

abbrev pub placed : ℕ → Decimal → Decimal → RankedBid → RankedBid
placed n delta pct b = record b {
  position = n;
  position_label = PositionLabel.ranked n;
  delta_vs_l1_base = delta;
  delta_vs_l1_pct = pct;
}

-- Positions from `n` on, with what each bid is above L1; `none` is a decimal exception.
unfoldable pub number_from : ℕ → Decimal → List RankedBid → Option (List RankedBid)
number_from n l1_total [] = some []
number_from n l1_total (b ∷ rest) = do
  delta ← Decimal.quantize 2 (Decimal.sub b.total_base l1_total)
  pct ← delta_pct delta l1_total
  others ← number_from (suc n) l1_total rest
  some (placed n delta pct b ∷ others)

unfoldable pub number_bids : List RankedBid → Option (List RankedBid)
unfolding number_from
number_bids [] = some []
number_bids (b ∷ rest) = number_from 1 b.total_base (b ∷ rest)

abbrev set_aside : RankedBid → RankedBid
set_aside b = record b { position = 0; position_label = PositionLabel.disqualified }

unfoldable pub set_aside_all : List RankedBid → List RankedBid
set_aside_all [] = []
set_aside_all (b ∷ rest) = set_aside b ∷ set_aside_all rest

abbrev pub is_qualified : RankedBid → Bool
is_qualified b = b.technically_qualified

abbrev pub cheaper : RankedBid → RankedBid → Bool
cheaper b c = Decimal.le b.total_base c.total_base

-- The ranked bids, then the disqualified ones.
unfoldable pub rank_candidates : List RankedBid → Option (List RankedBid × List RankedBid)
unfolding before sort_by number_bids set_aside_all
rank_candidates candidates = do
  bids ← number_bids (sort_by before (keep is_qualified candidates))
  some (bids, set_aside_all (sort_by cheaper (keep (λ b. not (is_qualified b)) candidates)))
