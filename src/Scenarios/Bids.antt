-- ===== src/Scenarios/Bids.antt =====
-- Three bids, one of them partial and one not qualified.
use procurement_automation.Prelude.{
  ℕ, ◌≡◌, refl, Bool, true, false, none, some, List, [], ◌∷◌, String,
}
use procurement_automation.Int
use procurement_automation.Decimal
use procurement_automation.Decimal.{of_ℕ, dec}
use procurement_automation.Ranking.{
  RankedBid, PositionLabel, delta_pct, placed, number_bids, rank_candidates,
}
use procurement_automation.Ranking.Sorted.{IsRanking, rank_candidates-IsRanking}

abbrev bid : String → ℕ → Bool → Bool → RankedBid
bid vendor total qualified is_partial = record {
  vendor_id = vendor;
  vendor_name = vendor;
  quotation_id = "";
  position = 0;
  position_label = PositionLabel.unset;
  total_base = of_ℕ total;
  landed_cost_base = of_ℕ total;
  tco_base = of_ℕ total;
  delta_vs_l1_base = of_ℕ 0;
  delta_vs_l1_pct = of_ℕ 0;
  delta_vs_benchmark_pct = none;
  technical_score = none;
  weighted_value_score = none;
  technically_qualified = qualified;
  lines_covered = 1;
  lines_total = 2;
  partial_offer = is_partial;
  flags = [];
  notes = "";
}

abbrev candidates : List RankedBid
candidates =
    bid "V1" 250 true false
    ∷ bid "V2" 90 true true
    ∷ bid "V3" 10 false false
    ∷ bid "V4" 200 true false
    ∷ []

-- V4 is L1, V1 is 25 percent above it, and the partial offer is last though it is the cheapest.
abbrev in_order : List RankedBid
in_order =
    placed 1 (dec (Int.pos 0) 2) (dec (Int.pos 0) 4) (bid "V4" 200 true false)
    ∷ placed 2 (dec (Int.pos 5000) 2) (dec (Int.pos 250000) 4) (bid "V1" 250 true false)
    ∷ placed 3 (dec (Int.negsuc 10999) 2) (dec (Int.negsuc 549999) 4) (bid "V2" 90 true true)
    ∷ []

abbrev rejected : List RankedBid
rejected =
    record (bid "V3" 10 false false) { position = 0; position_label = PositionLabel.disqualified }
    ∷ []

ranking : rank_candidates candidates ≡ some (in_order, rejected)
unfolding rank_candidates number_bids Decimal.le Decimal.sub Decimal.quantize Decimal.eq Decimal.div
    Decimal.mul delta_pct
ranking = refl

rank_candidates-IsRanking_example : IsRanking candidates in_order rejected
rank_candidates-IsRanking_example = rank_candidates-IsRanking candidates in_order rejected ranking
