-- ===== src/Shelters.antt =====
-- The shelters' capacity: frontend/standalone/src/data.js `mkShelters`, boot.js
-- `recomputeShelter`, actions.js `doSaveShelter` (its changes of a shelter). Days of stock are
-- counted in tenths of a day.
pub mod Capacity
pub mod Agreement
mod Tests
use aapda_sync.Base.Int.{ℤ, pos, negsuc}
use aapda_sync.Base.{
  ℕ, ◌+◌, ◌-◌, ◌*◌, ◌/◌, ◌≤◌, String, Bool, true, false, not, Option, none, some, List, [], ◌∷◌,
  if◌then◌else◌, ltb, leb, nat_eq, str_eq, or_else, find,
}

pub data Limit : Type 0 where
  space : Limit
  water : Limit
  food : Limit
  medical : Limit

-- The values of `state` that the capacity depends on.
pub data Condition : Type 0 where
  ready : Condition
  standby : Condition
  compromised : Condition

pub data Standing : Type 0 where
  has_room : Standing
  full : Standing
  closed : Standing

-- The text of `binding_constraint`.
pub data Binding : Type 0 where
  by : Limit → Binding
  by_standby : Limit → Binding
  is_compromised : Binding
  in_footprint : Binding

-- A cell of the grid, with its risk for the hazard layer in view (`risk[S.hazard]`), negative or
-- null where there is none.
pub record Cell : Type 0 where
  pub cell_id : String
  pub id : String
  pub col : ℕ
  pub row : ℕ
  pub risk : Option ℤ

-- A row of the table that `mkShelters` shapes.
pub record Row : Type 0 where
  pub id : String
  pub name : String
  pub zone : String
  pub cap : ℕ
  pub occ : ℕ
  pub water : ℕ
  pub food : ℕ
  pub med : ℕ
  pub state : Condition

pub record Shelter : Type 0 where
  pub shelter_id : String
  pub name : String
  pub zone : String
  pub max_capacity : ℕ
  pub current_occupancy : ℕ
  pub state : Condition
  pub water_days : ℕ
  pub food_days : ℕ
  pub medical_staff : ℕ
  pub effective_capacity : ℕ
  pub raw_available : ℕ
  pub binding_constraint : Binding
  pub operational : Bool
  pub hazard_risk : ℕ
  pub utilisation : Option ℕ
  pub standing : Standing

-- `Math.max(Math.floor(cap * 0.9) - occ, 0)`
abbrev pub space_available : ℕ → ℕ → ℕ
space_available cap occ = cap * 9 / 10 - occ

-- `days >= 2 ? spaceAvail : Math.floor(spaceAvail * days / 2)`
abbrev pub stock_available : ℕ → ℕ → ℕ
stock_available places days = if leb 20 days then places else places * days / 20

-- `Math.max(med * 250 - occ, 0)`
abbrev pub medical_available : ℕ → ℕ → ℕ
medical_available med occ = med * 250 - occ

-- The places that each of the candidates allows.
pub record Candidates : Type 0 where
  pub for_space : ℕ
  pub for_water : ℕ
  pub for_food : ℕ
  pub for_medical : ℕ

unfoldable pub candidates : ℕ → ℕ → ℕ → ℕ → ℕ → Candidates
candidates cap occ water_days food_days med = record {
  for_space = space_available cap occ;
  for_water = stock_available (space_available cap occ) water_days;
  for_food = stock_available (space_available cap occ) food_days;
  for_medical = medical_available med occ;
}

-- `if (cands[k] < eff) { eff = cands[k]; binding = k; }`
abbrev pub tighten : Limit → ℕ → Limit × ℕ → Limit × ℕ
tighten k places best = if ltb places best.1 then (k, places) else best

-- The loop over the candidates, which starts at the space.
unfoldable pub tightest : Candidates → Limit × ℕ
tightest c = tighten Limit.medical c.for_medical (
    tighten Limit.food c.for_food (
      tighten Limit.water c.for_water (tighten Limit.space c.for_space (Limit.space, c.for_space))))

-- `+(occ / cap).toFixed(3)` in thousandths; none where it is no number.
unfoldable pub utilisation_of : ℕ → ℕ → Option ℕ
utilisation_of occ cap = if nat_eq cap 0 then none else some ((2000 * occ + cap) / (2 * cap))

-- `operational ? (eff > 0 ? 'open' : 'full') : 'closed'`
unfoldable pub standing_of : Bool → ℕ → Standing
standing_of operational eff =
    if operational
    then (if ltb 0 eff then Standing.has_room else Standing.full)
    else Standing.closed

-- `Math.max(risk ?? 0, 0)`
abbrev pub at_least_zero : Option ℤ → ℕ
at_least_zero none = 0
at_least_zero (some (pos n)) = n
at_least_zero (some (negsuc n)) = 0

-- `cellObj ? Math.max(cellObj.risk[hz] ?? 0, 0) : 0`
abbrev pub risk_or_zero : Option Cell → ℕ
risk_or_zero none = 0
risk_or_zero (some cell) = at_least_zero cell.risk

unfoldable pub zone_risk : List Cell → String → ℕ
zone_risk cells zone = risk_or_zero (find (λ c. str_eq c.id zone) cells)

-- What the state and the hazard leave of the tightest candidate: places, whether the shelter is
-- operational, and the constraint.
unfoldable pub conditioned : Condition → ℕ → Limit × ℕ → ℕ × Bool × Binding
conditioned Condition.compromised risk best = (0, false, Binding.is_compromised)
conditioned Condition.standby risk best =
    if leb 60 risk
    then (0, false, Binding.in_footprint)
    else (best.1 / 2, true, Binding.by_standby best.0)
conditioned Condition.ready risk best =
    if leb 60 risk then (0, false, Binding.in_footprint) else (best.1, true, Binding.by best.0)

-- One row of `mkShelters`.
unfoldable pub mk_shelter : List Cell → Row → Shelter
mk_shelter cells r =
    let risk = zone_risk cells r.zone in
    let best = tightest (candidates r.cap r.occ r.water r.food r.med) in
    let left = conditioned r.state risk best in
    record {
      shelter_id = r.id;
      name = r.name;
      zone = r.zone;
      max_capacity = r.cap;
      current_occupancy = r.occ;
      state = r.state;
      water_days = r.water;
      food_days = r.food;
      medical_staff = r.med;
      effective_capacity = left.0;
      raw_available = r.cap - r.occ;
      binding_constraint = left.2;
      operational = left.1;
      hazard_risk = risk;
      utilisation = utilisation_of r.occ r.cap;
      standing = standing_of left.1 left.0;
    }

abbrev pub best_of : Shelter → Limit × ℕ
best_of s =
    tightest
      (candidates s.max_capacity s.current_occupancy s.water_days s.food_days s.medical_staff)

-- `recomputeShelter(s)`
unfoldable pub recompute_shelter : Shelter → Shelter
recompute_shelter s =
    let best = best_of s in
    let eff = if s.operational then best.1 else 0 in
    record s {
      effective_capacity = eff;
      binding_constraint = if s.operational then Binding.by best.0 else s.binding_constraint;
      raw_available = s.max_capacity - s.current_occupancy;
      utilisation = utilisation_of s.current_occupancy s.max_capacity;
      standing = standing_of s.operational eff;
    }

-- The form of the shelter's drawer: what `+$('occ').value` and the other three fields give, none
-- where it is no number.
pub record Form : Type 0 where
  pub occ : Option ℤ
  pub wd : Option ℤ
  pub fd : Option ℤ
  pub md : Option ℤ

-- What `doSaveShelter` does to the shelter: it leaves the standing as it was.
unfoldable pub save_form : Form → Shelter → Shelter
save_form form old =
    let s : Shelter = record old {
      current_occupancy = at_least_zero form.occ;
      water_days = at_least_zero form.wd;
      food_days = at_least_zero form.fd;
      medical_staff = at_least_zero form.md;
    } in
    let best = best_of s in
    record s {
      effective_capacity = if s.operational then best.1 else 0;
      binding_constraint = if s.operational then Binding.by best.0 else s.binding_constraint;
      raw_available = s.max_capacity - s.current_occupancy;
      utilisation = utilisation_of s.current_occupancy s.max_capacity;
    }
