-- ===== src/Ranking/Score.antt =====
-- data.js, the scores of `computePriorities`, with `footprint`, `exposureOf`, `vulnerabilityOf` and
-- `timeToImpact`. What the source computes with doubles is computed with fractions here, and rounded
-- where the source rounds. Heights and hours are in tenths, probabilities and river levels in
-- thousandths, scores in millionths. Math.log1p and Math.exp are parameters: `log_share x` is
-- `Math.log1p(x) / Math.log1p(5000)`, `decay h` is `Math.exp(-h / 80)`.
use aapda_sync.Base.{
  ℕ, ◌+◌, ◌-◌, ◌*◌, Option, none, some, String, List, [], ◌∷◌, if◌then◌else◌, ltb, leb, str_eq,
}
use aapda_sync.Base.Fractions.{Fraction, frac, at_most_one, rounded}
use aapda_sync.Base.Int.{ℤ, pos, negsuc}
use aapda_sync.Ranking.{Zone, rank_zones}
use aapda_sync.Ranking.Sort.{Stats}

-- What the ranking reads of a cell, for the hazard in view: `risk[hazard]` and
-- `probability[hazard]` are null where the hazard is unknown there.
pub record Ground : Type 0 where
  pub cell_id : String
  pub id : String
  pub name : String
  pub pop : ℕ
  pub risk : Option ℤ
  pub probability : Option ℕ
  pub hand_m : Option ℕ
  pub slope_deg : ℕ
  pub river_ratio : Option ℕ
  pub rainfall_24h : ℕ

-- `footprint(cell, hazard)[0]` in hundredths; every cell has a slope.
unfoldable pub flood_footprint : Option ℕ → ℕ
flood_footprint none = 55
flood_footprint (some h) =
    if leb h 20
    then 90
    else if leb h 50
    then 65
    else if leb h 100
    then 35
    else if leb h 200
    then 12
    else 3

unfoldable pub slope_footprint : ℕ → ℕ
slope_footprint s = if leb 35 s then 40 else if leb 25 s then 30 else if leb 15 s then 15 else 5

unfoldable pub footprint : String → Ground → ℕ
footprint hazard cell =
    if str_eq hazard "flood" then flood_footprint cell.hand_m else slope_footprint cell.slope_deg

-- `exposureOf(cell, hazard).inFootprint`, with 92 of 100 people at home.
unfoldable pub in_footprint : String → Ground → ℕ
in_footprint hazard cell = rounded 1 (frac (cell.pop * footprint hazard cell * 92) 10000)

-- `vulnerabilityOf(cell).routes`
unfoldable pub routes_out : ℕ → ℕ
routes_out slope = if ltb 40 slope then 1 else if ltb 25 slope then 2 else 3

-- The six terms of `vulnerabilityOf`, each with its weight, over the common denominator 90000.
unfoldable pub vulnerability_sum : ℕ → ℕ
vulnerability_sum slope =
    let evac = if ltb 30 slope then 62 else 38 in
    let med = if ltb 35 slope then 42 else 18 in
    let shelter = if ltb 35 slope then 11 else 5 in
    let route = if ltb 40 slope then 85 else if ltb 25 slope then 45 else 15 in
    220 * evac + 324 * med + 144 * route + 960 * shelter + 5940 + 3744

-- `vulnerabilityOf(cell).score`, four digits of it.
unfoldable pub vulnerability : ℕ → Fraction
vulnerability slope =
    frac (rounded 10000 (at_most_one (frac (vulnerability_sum slope * 106) 9000000))) 10000

-- `timeToImpact(cell, hazard)`
unfoldable pub flood_time : Option ℕ → ℕ → Option ℕ
flood_time none rain = if ltb 190 rain then some 60 else none
flood_time (some ratio) rain =
    if leb 1000 ratio then some 0 else some (rounded 1 (frac (1000 - ratio) 2))

unfoldable pub time_to_impact : String → Ground → Option ℕ
time_to_impact hazard cell =
    if str_eq hazard "flood"
    then flood_time cell.river_ratio cell.rainfall_24h
    else if ltb 170 cell.rainfall_24h
    then some 120
    else if ltb 140 cell.rainfall_24h
    then some 200
    else none

-- `evacMin`
unfoldable pub evac_min : ℕ → ℕ
evac_min routes = if leb routes 1 then 78 else if leb routes 2 then 52 else 34

-- `{ 0: 1, 1: 0.8, 2: 0.45 }[routes] ?? 0.2`, of the routes that there can be.
unfoldable pub accessibility : ℕ → Fraction
accessibility routes =
    if leb routes 0
    then frac 1 1
    else if leb routes 1
    then frac 8 10
    else if leb routes 2
    then frac 45 100
    else frac 2 10

-- `+(n[k] * WEIGHTS[k]).toFixed(6)` in millionths, with the weight in hundredths.
unfoldable pub contribution : Fraction → ℕ → ℕ
contribution x weight = rounded (weight * 10000) x

module _ (log_share : Fraction → Fraction) (decay : ℕ → Fraction) where
  -- `n.time_to_hazard`
  unfoldable pub time_to_hazard : Option ℕ → Fraction
  time_to_hazard none = frac 4 10
  time_to_hazard (some h) = if leb h 0 then frac 1 1 else at_most_one (decay h)

  -- `total`, the sum of the six contributions.
  unfoldable pub total_score : (hazard : String) (risk probability : ℕ) → Ground → ℕ
  total_score hazard risk probability cell =
      let routes = routes_out cell.slope_deg in
      let expected = frac (in_footprint hazard cell * probability) 1000 in
      contribution (at_most_one (frac risk 100)) 30
      + contribution (at_most_one (log_share expected)) 22
      + contribution (vulnerability cell.slope_deg) 18
      + contribution (at_most_one (frac (evac_min routes) 90)) 12
      + contribution (time_to_hazard (time_to_impact hazard cell)) 13
      + contribution (accessibility routes) 5

  -- The zone that is pushed for a cell.
  unfoldable pub scored_zone : (hazard : String) (risk probability : ℕ) → Ground → Zone
  scored_zone hazard risk probability cell = record {
    cell_id = cell.cell_id;
    id = cell.id;
    name = cell.name;
    priority_score = total_score hazard risk probability cell;
    expected_exposed = rounded 1 (frac (in_footprint hazard cell * probability) 1000);
    people_to_move = in_footprint hazard cell;
    time_to_impact_h = time_to_impact hazard cell;
    rank = 0;
  }

  -- One round of the loop: a cell without a risk, with one below 20, or without a probability is
  -- passed over.
  unfoldable pub score_cell :
      (hazard : String) → Option ℤ → Option ℕ → Ground → List Zone → List Zone
  score_cell hazard none p cell zones = zones
  score_cell hazard (some (negsuc n)) p cell zones = zones
  score_cell hazard (some (pos risk)) none cell zones = zones
  score_cell hazard (some (pos risk)) (some p) cell zones =
      if ltb risk 20 then zones else scored_zone hazard risk p cell ∷ zones

  unfoldable pub score_cells : (hazard : String) → List Ground → List Zone
  score_cells hazard [] = []
  score_cells hazard (cell ∷ cells) =
      score_cell hazard cell.risk cell.probability cell (score_cells hazard cells)

  -- `computePriorities()`
  unfoldable pub compute_priorities : (hazard : String) → List Ground → List Zone × Stats
  compute_priorities hazard cells = rank_zones (score_cells hazard cells)
