-- ===== src/Relocation.antt =====
-- frontend/standalone/src/data.js, `computeRoutes`: the greedy assignment of people to shelters, which
-- reserves the places it assigns. Distances and times are `Floats`.
pub mod Reserve
pub mod Zones
pub mod Plan
pub mod Whole
pub mod Exhausted
pub mod Unassigned
mod Tests
use aapda_sync.Base.{
  ℕ, zero, suc, ◌+◌, ◌-◌, ◌≤◌, min, max, Bool, true, false, not, ◌&&◌, ◌||◌, Option, none, some,
  String, List, [], ◌∷◌, map, if◌then◌else◌, ltb, leb, str_eq, or_else, find, any, keep, take,
  lookup, insert,
}
use mathlib.Core.Option.{map as map_option}
use aapda_sync.Base.Floats.{Floats, sort_by}
use aapda_sync.Ranking.{Zone}
use aapda_sync.Shelters.{Cell, Shelter}

pub data RoadState : Type 0 where
  passable : RoadState
  blocked : RoadState
  flooded : RoadState
  landslide : RoadState

pub record Road : Type 0 where
  pub state : RoadState
  pub zone : String

-- `['blocked', 'flooded', 'landslide'].includes(r.state)`
abbrev pub is_blocked : Road → Bool
is_blocked r = elim (r.state) [
  | RoadState.passable ↦ false
  | RoadState.blocked ↦ true
  | RoadState.flooded ↦ true
  | RoadState.landslide ↦ true
]

-- `remaining`, the free places by shelter.
abbrev pub Places : Type 0
Places = List (String × ℕ)

-- `remaining[id]`
abbrev pub free : String → Places → ℕ
free id remaining = or_else (lookup id remaining) 0

module _ (F : Floats) where
  -- A shelter with its position on the map.
  pub record Site : Type 0 where
    pub shelter : Shelter
    pub x : F.Num
    pub y : F.Num

  -- `{ s, d, mins, hazardOnRoute, detour, score }`
  pub record Candidate : Type 0 where
    pub s : Shelter
    pub d : F.Num
    pub mins : F.Num
    pub hazard_on_route : F.Num
    pub detour : Bool
    pub score : F.Num

  -- What a route says of its way.
  pub record Way : Type 0 where
    pub distance_km : F.Num
    pub travel_min : F.Num
    pub hazard_exposure : F.Num
    pub detour : Bool
    pub before_impact : Option Bool

  -- The shelter and the way are null where the people are not assigned, and only there is a reason.
  pub record Route : Type 0 where
    pub origin_cell : String
    pub origin_id : String
    pub origin : String
    pub shelter_id : Option String
    pub shelter_name : Option String
    pub people : ℕ
    pub rank : ℕ
    pub way : Option Way
    pub reason : Option String

  -- `(col + 0.5) / 5`
  unfoldable pub centre : ℕ → F.Num
  centre i = F.div (F.add (F.lit i 1) (F.lit 1 2)) (F.lit 5 1)

  -- `blockedZones.has(zone)`
  abbrev pub has_blocked : List Road → String → Bool
  has_blocked roads zone = any (λ r. is_blocked r && str_eq r.zone zone) roads

  -- The `map` of the candidates.
  unfoldable pub candidate : List Road → Places → Zone → Cell → Site → Candidate
  candidate roads remaining z cell site =
      let n = λ (k : ℕ). F.lit k 1 in
      let s = site.shelter in
      let d =
        F.mul (F.hypot (F.sub site.x (centre cell.col)) (F.sub site.y (centre cell.row))) (n 32) in
      let detour = has_blocked roads s.zone || has_blocked roads cell.id in
      let hazard =
        F.least
          (F.add (F.mul (F.div (n s.hazard_risk) (n 100)) (F.lit 8 10))
            (if detour then F.lit 22 100 else n 0))
          (n 1) in
      let mins = F.mul (F.mul (F.div d (n 22)) (n 60)) (F.add (n 1) (F.mul (F.lit 22 10) hazard)) in
      let relief =
        F.mul (F.least (F.div (n (free s.shelter_id remaining)) (n (max z.people_to_move 1))) (n 2))
          (n 6) in
      record {
        s = s;
        d = d;
        mins = mins;
        hazard_on_route = hazard;
        detour = detour;
        score = F.sub (F.add mins (F.mul hazard (n 25))) relief;
      }

  -- The shelters with a place left, best score first.
  unfoldable pub ranked : List Site → List Road → Places → Zone → Cell → List Candidate
  ranked sites roads remaining z cell =
      sort_by (λ (a b : Candidate). F.lt a.score b.score)
        (map (candidate roads remaining z cell) (
          keep (λ (t : Site). t.shelter.operational && ltb 0 (free t.shelter.shelter_id remaining))
            sites))

  -- The route that is pushed for a candidate.
  unfoldable pub route_to : Zone → Candidate → ℕ → Route
  route_to z c people = record {
    origin_cell = z.cell_id;
    origin_id = z.id;
    origin = z.name;
    shelter_id = some c.s.shelter_id;
    shelter_name = some c.s.name;
    people = people;
    rank = z.rank;
    way = some (record {
      distance_km = F.to_fixed 1 c.d;
      travel_min = F.round c.mins;
      hazard_exposure = F.to_fixed 3 c.hazard_on_route;
      detour = c.detour;
      before_impact =
          map_option (λ tenths. F.lt (F.div c.mins (F.lit 60 1)) (F.lit tenths 10))
            z.time_to_impact_h;
    });
    reason = none;
  }

  -- The route of those for whom there is no shelter.
  unfoldable pub unassigned : Zone → ℕ → Route
  unassigned z people = record {
    origin_cell = z.cell_id;
    origin_id = z.id;
    origin = z.name;
    shelter_id = none;
    shelter_name = none;
    people = people;
    rank = z.rank;
    way = none;
    reason = some "shelter capacity within reach is exhausted";
  }

  -- What the loop over the candidates leaves: the routes it pushed, the people still to place, the
  -- free places, and the shelters used.
  pub record Allotment : Type 0 where
    pub routes : List Route
    pub to_place : ℕ
    pub remaining : Places
    pub used : ℕ

  unfoldable pub allot : Zone → List Candidate → ℕ → ℕ → Places → Allotment
  allot z [] to_place used remaining = record {
    routes = [];
    to_place = to_place;
    remaining = remaining;
    used = used;
  }
  allot z (c ∷ cs) to_place used remaining =
      let left = free c.s.shelter_id remaining in
      let people = min to_place left in
      let skip = allot z cs to_place used remaining in
      let rest =
        allot z cs (to_place - people) (suc used)
          (insert c.s.shelter_id (left - people) remaining) in
      if leb to_place 0 || leb 3 used
      then record { routes = []; to_place = to_place; remaining = remaining; used = used }
      else if leb people 0
      then skip
      else record rest { routes = route_to z c people ∷ rest.routes }
