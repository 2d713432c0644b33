-- ===== src/Shelters/Tests.antt =====
-- One shelter that is open and one on standby.
use aapda_sync.Base.{◌+◌, ◌*◌, ◌/◌, ◌≤◌, ◌<◌, max, true, [], ◌≡◌, ◌↔◌, refl}
use aapda_sync.Shelters.{
  Limit, Condition, Standing, Row, Candidates, candidates, tightest, mk_shelter, conditioned,
  zone_risk, recompute_shelter, save_form,
}
use aapda_sync.Shelters.Capacity.{mk_shelter-capacity}
use aapda_sync.Shelters.Agreement.{shown, recompute_shelter-mk_shelter}

abbrev school : Row
school = record {
  id = "SH-1";
  name = "School";
  zone = "A1";
  cap = 500;
  occ = 100;
  water = 10;
  food = 40;
  med = 2;
  state = Condition.ready;
}

abbrev hall : Row
hall = record school { state = Condition.standby }

-- 350 places by space, half of them by water, all by food, 400 by medical staff.
school_limit : tightest (candidates 500 100 10 40 2) ≡ (Limit.water, 175)
unfolding tightest candidates
school_limit = refl

abbrev limits : Candidates
limits = record { for_space = 350; for_water = 175; for_food = 350; for_medical = 400 }

mk_shelter-capacity_example :
    ((mk_shelter [] school).effective_capacity + 100 ≤ max 100 (500 * 9 / 10))
    × (((mk_shelter [] school).standing ≡ Standing.has_room)
        ↔ (0 < (mk_shelter [] school).effective_capacity))
mk_shelter-capacity_example = mk_shelter-capacity [] school

abbrev unsafe_school : Row
unsafe_school = record school { state = Condition.compromised }

school_operational : (mk_shelter [] school).operational ≡ true
unfolding mk_shelter conditioned zone_risk
school_operational = refl

recompute_shelter-mk_shelter_example :
    (recompute_shelter (mk_shelter [] school) ≡ mk_shelter [] school)
    × (save_form (shown (mk_shelter [] school)) (mk_shelter [] school) ≡ mk_shelter [] school)
recompute_shelter-mk_shelter_example =
    recompute_shelter-mk_shelter [] school school_operational refl

hall_operational : (mk_shelter [] hall).operational ≡ true
unfolding mk_shelter conditioned zone_risk
hall_operational = refl
