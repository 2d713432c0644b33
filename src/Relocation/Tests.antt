-- ===== src/Relocation/Tests.antt =====
-- Two zones and two shelters, with whole numbers for the doubles.
use aapda_sync.Base.{
  ℕ, ◌+◌, ◌-◌, ◌*◌, ◌/◌, ◌≤◌, min, true, none, some, String, List, [], ◌∷◌, ◌≡◌, refl, ltb, lookup,
  insert, take, All, str_eq_iff,
}
use aapda_sync.Base.Floats.{Floats}
use aapda_sync.Ranking.{Zone}
use aapda_sync.Shelters.{Condition, Standing, Binding, Limit, Cell, Shelter}
use aapda_sync.Relocation.{
  Places, free, Site, Route, allot, ranked, route_to, unassigned, candidate, centre,
}
use aapda_sync.Relocation.Zones.{place_zone, compute_routes}
use aapda_sync.Relocation.Reserve.{people_of, placed}
use aapda_sync.Relocation.Plan.{assigned, place_zone-allots}
use aapda_sync.Relocation.Whole.{to_be_moved, compute_routes-total, compute_routes-capacity}
use aapda_sync.Relocation.Unassigned.{unplaced}

abbrev whole_numbers : Floats
whole_numbers = record {
  Num = ℕ;
  lit = λ n d. n * 100 / d;
  add = λ a b. a + b;
  sub = λ a b. a - b;
  mul = λ a b. a * b / 100;
  div = λ a b. a * 100 / b;
  least = λ a b. min a b;
  hypot = λ a b. a + b;
  to_fixed = λ k a. a;
  round = λ a. a;
  lt = ltb;
}

abbrev shelter : String → ℕ → Shelter
shelter id places = record {
  shelter_id = id;
  name = id;
  zone = "A1";
  max_capacity = 100;
  current_occupancy = 0;
  state = Condition.ready;
  water_days = 30;
  food_days = 30;
  medical_staff = 4;
  effective_capacity = places;
  raw_available = 100;
  binding_constraint = Binding.by Limit.space;
  operational = true;
  hazard_risk = 0;
  utilisation = some 0;
  standing = Standing.has_room;
}

abbrev near : Site whole_numbers
near = record { shelter = shelter "SH-1" 30; x = 10; y = 10 }

abbrev far : Site whole_numbers
far = record { shelter = shelter "SH-2" 25; x = 90; y = 90 }

abbrev sites : List (Site whole_numbers)
sites = near ∷ far ∷ []

abbrev cells : List Cell
cells =
    record { cell_id = "c1"; id = "A1"; col = 0; row = 0; risk = none }
    ∷ record { cell_id = "c2"; id = "B2"; col = 1; row = 1; risk = none }
    ∷ []

abbrev zone : String → ℕ → Zone
zone id people = record {
  cell_id = id;
  id = id;
  name = id;
  priority_score = 500000;
  expected_exposed = people;
  people_to_move = people;
  time_to_impact_h = some 60;
  rank = 1;
}

abbrev zones : List Zone
zones = zone "A1" 40 ∷ zone "B2" 30 ∷ []

abbrev places : Places
places = ("SH-1", 30) ∷ ("SH-2", 25) ∷ []

abbrev cell_a1 : Cell
cell_a1 = record { cell_id = "c1"; id = "A1"; col = 0; row = 0; risk = none }

place_zone-allots_example :
    (people_of whole_numbers (place_zone whole_numbers sites [] (zone "A1" 40) cell_a1 places).0
      ≡ 40)
    × All
        (λ (r : Route whole_numbers). 1 ≤ r.people)
        (place_zone whole_numbers sites [] (zone "A1" 40) cell_a1 places).0
    × (assigned whole_numbers (place_zone whole_numbers sites [] (zone "A1" 40) cell_a1 places).0
        ≤ 3)
    × (placed whole_numbers "SH-1"
            (place_zone whole_numbers sites [] (zone "A1" 40) cell_a1 places).0
          + free "SH-1" (place_zone whole_numbers sites [] (zone "A1" 40) cell_a1 places).1
        ≡ free "SH-1" places)
place_zone-allots_example =
    place_zone-allots whole_numbers sites [] (zone "A1" 40) cell_a1 places "SH-1"

compute_routes-total_example :
    people_of whole_numbers (compute_routes whole_numbers sites [] cells zones)
    ≡ to_be_moved whole_numbers cells (take 14 zones)
compute_routes-total_example = compute_routes-total whole_numbers sites [] cells zones

compute_routes-capacity_example :
    placed whole_numbers "SH-2" (compute_routes whole_numbers sites [] cells zones) ≤ 25
compute_routes-capacity_example =
    compute_routes-capacity whole_numbers sites [] cells zones 1 far
      ((λ e. cc ((str_eq_iff "SH-2" "SH-1").1 e), tt), (tt, tt)) refl

-- A zone of 80 people, more than both shelters take.
crowd_unplaced :
    unplaced whole_numbers (place_zone whole_numbers sites [] (zone "A1" 80) cell_a1 places).0 ≡ 25
unfolding place_zone allot ranked route_to unassigned candidate centre lookup insert
crowd_unplaced = refl

crowd_assigned :
    assigned whole_numbers (place_zone whole_numbers sites [] (zone "A1" 80) cell_a1 places).0 ≡ 2
unfolding place_zone allot ranked route_to unassigned candidate centre lookup insert
crowd_assigned = refl
