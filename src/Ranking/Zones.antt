-- ===== src/Ranking/Zones.antt =====
-- data.js, the end of `computePriorities`: what S.priorities holds.
use mathlib.Core.List.{Perm}
use mathlib.Core.List.Perm
use aapda_sync.Base.{
  ℕ, zero, suc, ◌+◌, ◌*◌, ◌^◌, ◌≤◌, ◌<◌, false, some, List, [], ◌∷◌, map, length, get_elem?, All,
  or_else, ◌⊎◌, ◌≡◌, refl, ap, arith,
}
use aapda_sync.Ranking.{Zone, text_before, number_from, rank_zones, zone_before, cmp, priority_key}
use aapda_sync.Ranking.Laws.{zone_before-IsOrder}
use aapda_sync.Ranking.Sort.{Stats, merge_sort}
use aapda_sync.Ranking.Sort.Laws.{IsSorted, NotAfter}
use aapda_sync.Ranking.Sort.Sorted.{merge_sort-perm, merge_sort-IsSorted}
use aapda_sync.Ranking.Sort.Cost.{merge_sort-cost}

-- A zone without its rank.
abbrev pub unranked : Zone → Zone
unranked z = record z { rank = 0 }

number_from-rank :
    (i k : ℕ) (zs : List Zone) (z : Zone)
    → get_elem? (number_from i zs) k ≡ some z
    → z.rank ≡ i + k + 1
unfolding number_from
number_from-rank i k [] z h = ground arith
number_from-rank i zero (x ∷ zs) z h = ground arith
number_from-rank i (suc k) (x ∷ zs) z h = ground (arith, number_from-rank (suc i) k zs z)

number_from-NotAfter :
    (i j : ℕ) (x : Zone) (zs : List Zone)
    → All (NotAfter zone_before x) zs
    → All (NotAfter zone_before (record x { rank = j })) (number_from i zs)
unfolding number_from zone_before priority_key
number_from-NotAfter i j x [] h = tt
number_from-NotAfter i j x (z ∷ zs) h = (h.0, number_from-NotAfter (suc i) j x zs h.1)

number_from-IsSorted :
    (i : ℕ) (zs : List Zone) → IsSorted zone_before zs → IsSorted zone_before (number_from i zs)
unfolding number_from
number_from-IsSorted i [] h = tt
number_from-IsSorted i (z ∷ zs) h =
    (number_from-NotAfter (suc i) (suc i) z zs h.0, number_from-IsSorted (suc i) zs h.1)

unranked-number_from : (i : ℕ) (zs : List Zone) → map unranked (number_from i zs) ≡ map unranked zs
unfolding number_from
unranked-number_from i [] = refl
unranked-number_from i (z ∷ zs) = ap (unranked z ∷◌) (unranked-number_from (suc i) zs)

-- The hours that count for a zone: an unknown time is later than any known one.
abbrev pub hours : Zone → ℕ
hours z = or_else z.time_to_impact_h 10000000000

-- A zone stands before another one: it has the higher score; or at one score more people exposed; or
-- at one count less time; or at one time an id that is not behind the other's.
abbrev pub Outranks : Zone → Zone → Type 0
Outranks z w =
    (w.priority_score < z.priority_score)
    ⊎ ((w.priority_score ≡ z.priority_score)
        × ((w.expected_exposed < z.expected_exposed)
            ⊎ ((w.expected_exposed ≡ z.expected_exposed)
                × ((hours z < hours w)
                    ⊎ ((hours z ≡ hours w) × (text_before w.cell_id z.cell_id ≡ false))))))

abbrev pub IsRanked : List Zone → Type 0
IsRanked [] = Unit
IsRanked (z ∷ zs) = All (Outranks z) zs × IsRanked zs

NotAfter-Outranks : (z w : Zone) → zone_before w z ≡ false → Outranks z w
unfolding zone_before cmp priority_key
NotAfter-Outranks z w h = ground arith

All-Outranks : (z : Zone) (zs : List Zone) → All (NotAfter zone_before z) zs → All (Outranks z) zs
All-Outranks z [] h = tt
All-Outranks z (w ∷ zs) h = (NotAfter-Outranks z w h.0, All-Outranks z zs h.1)

IsSorted-IsRanked : (zs : List Zone) → IsSorted zone_before zs → IsRanked zs
IsSorted-IsRanked [] h = tt
IsSorted-IsRanked (z ∷ zs) h = (All-Outranks z zs h.0, IsSorted-IsRanked zs h.1)

-- In the ranking each zone outranks all that stand below it: by the score, then the people exposed,
-- then the time, then the id. And the ranking is made of the scored zones, each as often as it was
-- there.
pub rank_zones-IsRanked :
    (scored : List Zone)
    → IsRanked (rank_zones scored).0
      × Perm (map unranked scored) (map unranked (rank_zones scored).0)
unfolding rank_zones
rank_zones-IsRanked scored =
    let fresh : Stats = record { n = length scored; comparisons = 0; depth = 0 } in
    let sorted = (merge_sort zone_before scored fresh).0 in
    (
      IsSorted-IsRanked (number_from 0 sorted) (
          number_from-IsSorted 0 sorted
            (merge_sort-IsSorted zone_before zone_before-IsOrder scored fresh)),
      rw unranked-number_from (Perm.map unranked (merge_sort-perm zone_before scored fresh)),
    )

-- The zone at the index `k` of the ranking has the rank `k + 1`.
pub rank_zones-rank :
    (scored : List Zone) (k : ℕ) (z : Zone)
    → get_elem? (rank_zones scored).0 k ≡ some z
    → z.rank ≡ k + 1
unfolding rank_zones
rank_zones-rank scored k z h =
    let fresh : Stats = record { n = length scored; comparisons = 0; depth = 0 } in
    omega (arith, number_from-rank 0 k (merge_sort zone_before scored fresh).0 z h)

-- Ranking the zones compares at most `k` times for each of them where there are at most `2 ^ k`, and
-- recurs at most `k` deep.
pub rank_zones-cost :
    (k : ℕ) (scored : List Zone)
    → length scored ≤ 2 ^ k
    → ((rank_zones scored).1.comparisons ≤ k * length scored)
      × ((rank_zones scored).1.depth ≤ k)
      × ((rank_zones scored).1.n ≡ length scored)
unfolding rank_zones
rank_zones-cost k scored h =
    let fresh : Stats = record { n = length scored; comparisons = 0; depth = 0 } in
    let cost = merge_sort-cost zone_before k scored fresh h in
    (omega (arith, cost.0), omega (arith, cost.1), ground (arith, cost.2))
