-- ===== src/Ranking/Tests.antt =====
-- Three zones, two of them with one score, ranked.
use mathlib.Core.List.{Perm}
use aapda_sync.Base.{
  ℕ, ◌*◌, ◌≤◌, Bool, none, some, String, List, [], ◌∷◌, map, length, keep, nat_eq, ltb, get_elem?,
  ◌≡◌, refl, arith,
}
use aapda_sync.Ranking.{Zone, rank_zones, zone_before, number_from, cmp, priority_key}
use aapda_sync.Ranking.Sort.{Stats, merge_sort, merge, sort_rec}
use aapda_sync.Ranking.Sort.Laws.{IsOrder}
use aapda_sync.Ranking.Sort.Sorted.{keep-merge_sort}
use aapda_sync.Base.Int.{pos}
use aapda_sync.Base.Fractions.{Fraction, frac}
use aapda_sync.Ranking.Score.{Ground}
use aapda_sync.Ranking.Zones.{unranked, IsRanked, rank_zones-IsRanked, rank_zones-cost}

abbrev zone : String → ℕ → ℕ → Zone
zone id score people = record {
  cell_id = id;
  id = id;
  name = id;
  priority_score = score;
  expected_exposed = people;
  people_to_move = people;
  time_to_impact_h = none;
  rank = 0;
}

abbrev three : List Zone
three = zone "c1" 400000 10 ∷ zone "b1" 700000 20 ∷ zone "a1" 400000 10 ∷ []

abbrev fresh : Stats
fresh = record { n = 0; comparisons = 0; depth = 0 }

first_of_three : map (λ (z : Zone). z.cell_id) (rank_zones three).0 ≡ "b1" ∷ "a1" ∷ "c1" ∷ []
unfolding rank_zones merge_sort sort_rec merge zone_before cmp priority_key number_from
first_of_three = refl

rank_zones-IsRanked_example :
    IsRanked (rank_zones three).0 × Perm (map unranked three) (map unranked (rank_zones three).0)
rank_zones-IsRanked_example = rank_zones-IsRanked three

abbrev best : Zone
best = record (zone "b1" 700000 20) { rank = 1 }

best_ranked : get_elem? (rank_zones three).0 0 ≡ some best
unfolding rank_zones merge_sort sort_rec merge zone_before cmp priority_key number_from
best_ranked = refl

rank_zones-cost_example :
    ((rank_zones three).1.comparisons ≤ 2 * length three)
    × ((rank_zones three).1.depth ≤ 2)
    × ((rank_zones three).1.n ≡ length three)
rank_zones-cost_example = rank_zones-cost 2 three (omega arith)

-- Pairs, sorted by their first parts: those that begin with 4 tie.
abbrev pair_before : ℕ × ℕ → ℕ × ℕ → Bool
pair_before x y = ltb x.0 y.0

pair_before-IsOrder : IsOrder pair_before
pair_before-IsOrder = record {
  asymm = λ x y h. ground arith;
  not_trans = λ x y z h k. ground arith;
}

abbrev begins_with_4 : ℕ × ℕ → Bool
begins_with_4 x = nat_eq x.0 4

abbrev pairs : List (ℕ × ℕ)
pairs = (4, 1) ∷ (7, 2) ∷ (4, 3) ∷ (1, 4) ∷ []

keep-merge_sort_example :
    keep begins_with_4 (merge_sort pair_before pairs fresh).0 ≡ keep begins_with_4 pairs
keep-merge_sort_example =
    keep-merge_sort pair_before pair_before-IsOrder pairs fresh begins_with_4
      (λ x y p q. ground arith)

-- A steep cell by the river. The logarithm and the exponential are cut off to a half.
abbrev half : Fraction
half = frac 1 2

abbrev ground_b1 : Ground
ground_b1 = record {
  cell_id = "b1";
  id = "B1";
  name = "B1";
  pop = 4000;
  risk = some (pos 82);
  probability = some 705;
  hand_m = some 15;
  slope_deg = 42;
  river_ratio = some 940;
  rainfall_24h = 180;
}
