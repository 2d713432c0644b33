-- ===== src/States/Registers.antt =====
-- states.js `buildStateShelters`, `buildStateHospitals`, `buildStateRoads` and `buildStateReports`: the
-- provisional registers of a state. Days of stock are in tenths, confidences in hundredths. Places on
-- the map and the texts of times are left out.
use Prim.Native.Nat.{◌/◌, ◌%◌}
use aapda_sync.Base.{
  ℕ, suc, ◌+◌, ◌*◌, Option, none, some, String, List, [], ◌∷◌, take, lookup, get_elem?, or_else,
  if◌then◌else◌, ltb, leb, nat_eq, joined,
}
use aapda_sync.Base.Highest.{highest_first}
use aapda_sync.Base.Fractions.{frac, times, lerp, rounded}
use aapda_sync.Shelters
use aapda_sync.Shelters.{Condition}
use aapda_sync.States.{Profile}
use aapda_sync.States.Hash.{zhash, share}
use aapda_sync.States.Cells.{Cell}
use aapda_sync.States.Alerts.{digit, two_digits, three_digits, risk_in}

abbrev pub sh_kind : List String
sh_kind =
    "Govt. Inter College" ∷ "Community Hall" ∷ "Relief Camp" ∷ "Primary School" ∷ "Panchayat Bhawan"
    ∷ "Stadium Complex" ∷ "Degree College" ∷ "Cyclone Shelter" ∷ []

-- `'{pop}'` of a cell, by which the zones are picked.
abbrev pub pop_in : Cell → ℕ
pop_in c = c.pop

-- The rows of a list, each with its index.
unfoldable pub numbered {ℓ κ} : {A : Type ℓ} {B : Type κ} → (ℕ → A → B) → ℕ → List A → List B
numbered f i [] = []
numbered f i (x ∷ xs) = f i x ∷ numbered f (suc i) xs

-- The value of `state`; a shelter that is full or open is judged alike by the capacity.
abbrev pub condition_of : (cap occ k : ℕ) → Condition
condition_of cap occ k =
    if leb (9 * cap) (10 * occ)
    then Condition.ready
    else if ltb k 10000
    then Condition.compromised
    else if ltb 88000 k
    then Condition.standby
    else Condition.ready

pub record Hospital : Type 0 where
  pub id : String
  pub name : String
  pub beds : ℕ
  pub icu : ℕ

pub record Road : Type 0 where
  pub name : String
  pub state : String
  pub reason : String
  pub age : ℕ
  pub by : String
  pub confidence : ℕ
  pub zone : String

pub record Report : Type 0 where
  pub id : String
  pub cat : String
  pub loc : String
  pub cell : String
  pub desc : String
  pub age : ℕ
  pub st : String
  pub by : Option String

-- ROAD_CAUSE: the state of the road and the reason.
abbrev pub road_cause : List (String × (String × String))
road_cause =
    ("flood", ("flooded", "Water over carriageway"))
    ∷ ("landslide", ("landslide", "Debris across the carriageway"))
    ∷ ("cyclone", ("blocked", "Trees down across the road"))
    ∷ ("earthquake", ("blocked", "Surface rupture and rockfall"))
    ∷ ("heatwave", ("slow", "Surface softening, speed restriction"))
    ∷ ("drought", ("open", "No restriction"))
    ∷ ("lightning", ("slow", "Signal outage at the junction"))
    ∷ ("wildfire", ("blocked", "Fire across the alignment"))
    ∷ ("tsunami", ("blocked", "Coastal road inundated"))
    ∷ []

-- REPORT_CAT: the category and the description.
abbrev pub report_cat : List (String × (String × String))
report_cat =
    ("flood", ("Water entering houses", "Water has come into the ground floor near the bridge."))
    ∷ ("landslide", ("Cracks in ground", "New cracks have appeared in the lane since morning."))
    ∷ ("cyclone", ("Roof damage", "Tin sheets have blown off several houses in the ward."))
    ∷ (
      "earthquake",
      ("Building damage", "A wall has cracked through in the block near the market."),
    )
    ∷ ("heatwave", ("Heat illness", "Two labourers collapsed at the worksite this afternoon."))
    ∷ (
      "drought",
      ("Water shortage", "The handpump has run dry, we are walking to the next village."),
    )
    ∷ (
      "lightning",
      ("Lightning strike", "A strike hit the field near the school during the storm."),
    )
    ∷ ("wildfire", ("Fire spreading", "Smoke from the ridge is moving towards the settlement."))
    ∷ ("tsunami", ("Sea coming in", "The water has come further up the beach than usual."))
    ∷ []

abbrev pub flood_report : String × String
flood_report = ("Water entering houses", "Water has come into the ground floor near the bridge.")

-- A number below a hundred.
abbrev pub number : ℕ → String
number n = if ltb n 10 then digit n else two_digits n

-- `Object.keys(P.hz)[1] || P.pri`
abbrev pub second_of : List (String × ℕ) → String → String
second_of [] pri = pri
second_of (row ∷ []) pri = pri
second_of (row ∷ (h, v) ∷ rest) pri = h

module _ (upper : String → String) (sid : String) (p : Profile) where
  unfoldable pub shelter_row : ℕ → Cell → Shelters.Row
  shelter_row i c =
      let k = zhash (joined (sid ∷ c.id ∷ "sh" ∷ [])) in
      let kind = or_else (get_elem? sh_kind (zhash c.name * 8 / 100000)) "undefined" in
      let cap = rounded 1 (lerp 220 2100 (frac k 100000)) in
      let occ =
        rounded 1 (times (frac cap 100) (lerp 12 96 (share (joined (c.name ∷ "occ" ∷ []))))) in
      record {
        id = joined ("SH-" ∷ upper sid ∷ three_digits (101 + i) ∷ []);
        name = joined (kind ∷ ", " ∷ c.name ∷ []);
        zone = c.id;
        cap = cap;
        occ = occ;
        water = rounded 1 (lerp 6 70 (share (joined (c.name ∷ "w" ∷ []))));
        food = rounded 1 (lerp 9 65 (share (joined (c.name ∷ "f" ∷ []))));
        med = rounded 1 (lerp 0 6 (share (joined (c.name ∷ "m" ∷ []))));
        state = condition_of cap occ k;
      }

  unfoldable pub build_state_shelters : List Cell → List Shelters.Row
  build_state_shelters cells = numbered shelter_row 0 (take 9 (highest_first pop_in cells))

  abbrev pub hospital_of : ℕ → Cell → Hospital
  hospital_of i c = record {
    id = joined ("HOSP-" ∷ upper sid ∷ digit (suc i) ∷ []);
    name = joined ((if nat_eq i 0 then "District Hospital " else "CHC ") ∷ c.name ∷ []);
    beds = rounded 1 (lerp 30 240 (share (joined (c.name ∷ "bed" ∷ []))));
    icu = rounded 1 (lerp 2 22 (share (joined (c.name ∷ "icu" ∷ []))));
  }

  unfoldable pub build_state_hospitals : List Cell → List Hospital
  build_state_hospitals cells = numbered hospital_of 0 (take 3 (highest_first pop_in cells))

  abbrev pub officer : ℕ → String
  officer i = joined ("FO-" ∷ upper sid ∷ "-" ∷ two_digits (suc i) ∷ [])

  abbrev pub road_name : ℕ → Cell → String
  road_name i c =
      if nat_eq (i % 3) 0
      then joined ("NH-" ∷ number (10 + zhash c.name * 60 / 100000) ∷ [])
      else if nat_eq (i % 3) 1
      then joined ("SH-" ∷ number (4 + zhash c.name * 40 / 100000) ∷ [])
      else "Link road"

  abbrev pub cause_of : ℕ → String × String
  cause_of i =
      if nat_eq i 5
      then ("open", "Reopened after clearance")
      else or_else (lookup p.pri road_cause) ("slow", "Restricted movement")

  abbrev pub road_of : ℕ → Cell → Road
  road_of i c =
      let k = share (joined (sid ∷ c.id ∷ "rd" ∷ [])) in
      record {
        name = joined (road_name i c ∷ " · " ∷ c.name ∷ " approach" ∷ []);
        state = (cause_of i).0;
        reason = (cause_of i).1;
        age = rounded 1 (lerp 6 240 k);
        by = officer i;
        confidence = rounded 1 (lerp 78 98 k);
        zone = c.id;
      }

  -- The cells with the highest risk of the hazard that defines the event.
  abbrev pub hottest : ℕ → List Cell → List Cell
  hottest n cells = take n (highest_first (risk_in p.pri) cells)

  unfoldable pub build_state_roads : List Cell → List Road
  build_state_roads cells = numbered road_of 0 (hottest 6 cells)

  abbrev pub report_kind : ℕ → String × String
  report_kind i =
      or_else (lookup (if nat_eq (i % 2) 0 then p.pri else second_of p.hz p.pri) report_cat)
        flood_report

  abbrev pub report_of : ℕ → Cell → Report
  report_of i c = record {
    id = joined ("CR-" ∷ upper sid ∷ "40" ∷ three_digits (zhash c.name * 900 / 100000) ∷ []);
    cat = (report_kind i).0;
    loc = c.name;
    cell = c.id;
    desc = (report_kind i).1;
    age = rounded 1 (lerp 2 70 (share (joined (sid ∷ c.id ∷ "rep" ∷ []))));
    st = if ltb i 2 then "verified" else "pending";
    by = if ltb i 2 then some (officer i) else none;
  }

  unfoldable pub build_state_reports : List Cell → List Report
  build_state_reports cells = numbered report_of 0 (hottest 4 cells)
