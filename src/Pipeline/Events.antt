-- ===== src/Pipeline/Events.antt =====
-- boot.js, `EVENTS` and the national side of the pipeline: the events that change a shelter, the
-- queue of reports, a cell or a state, `driftNation` and `syncLatest`. What is drawn at random is an
-- argument.
use aapda_sync.Base.{
  ℕ, ◌+◌, ◌*◌, ◌/◌, min, max, Bool, true, false, ◌&&◌, ◌||◌, not, Option, none, some, String, List,
  [], ◌∷◌, if◌then◌else◌, ltb, leb, str_eq,
}
use aapda_sync.Base.Int.{ℤ, pos, negsuc}
use aapda_sync.Pipeline.{clamp}
use aapda_sync.Shelters.{Shelter, recompute_shelter}
use aapda_sync.Reports.{ReportId, Report}

-- People arrive at a shelter that was picked among the operational ones. `water` and `food` are the
-- days that are left, in tenths, before they are clamped to two weeks.
unfoldable pub arrive : (arrived : ℕ) (water food : ℤ) → Shelter → Shelter
arrive arrived water food s = recompute_shelter (record s {
  current_occupancy = min (s.current_occupancy + arrived) ((2 * s.max_capacity * 105 + 100) / 200);
  water_days = clamp water 0 140;
  food_days = clamp food 0 140;
})

-- A field report that arrives with the id drawn, or, where one is pending, the verification of the
-- first one.
abbrev pub is_pending : Report → Bool
is_pending r = str_eq r.st "pending"

unfoldable pub verify_first : (officer : String) → List Report → List Report
verify_first officer [] = []
verify_first officer (r ∷ rs) =
    let rest = verify_first officer rs in
    if is_pending r then record r { st = "verified"; by = some officer } ∷ rs else r ∷ rest

abbrev pub drawn_report : (id : ReportId) (cat loc cell : String) → Report
drawn_report id cat loc cell = record {
  id = id;
  cat = cat;
  loc = loc;
  cell = some cell;
  desc = "Reported by a resident, awaiting verification.";
  phone = none;
  st = "pending";
  by = none;
  src = "";
}

abbrev pub has_pending : List Report → Bool
has_pending [] = false
has_pending (r ∷ rs) = is_pending r || has_pending rs

unfoldable pub report_event :
    (id : ReportId) (cat loc cell officer : String) → List Report → List Report
report_event id cat loc cell officer reports =
    if has_pending reports
    then verify_first officer reports
    else drawn_report id cat loc cell ∷ reports

-- A zone that rises by the amount drawn, and a state that does.
unfoldable pub zone_rises : ℕ → ℕ → ℕ
zone_rises amount before = clamp (pos (before + amount)) 0 99

unfoldable pub state_rises : ℕ → ℕ → ℕ
state_rises amount before = clamp (pos (before + amount)) 8 98

-- `driftNation` on one value of a state: the observed one where the hazard is anchored there.
unfoldable pub drift_state : (anchored : Bool) (observed : ℕ) (next : ℤ) → ℕ
drift_state true observed next = observed
drift_state false observed next = clamp next 8 98

-- The state whose cells are loaded gets the highest risk of them, if any has data.
unfoldable pub highest_risk : List ℤ → Option ℕ
highest_risk [] = none
highest_risk (negsuc n ∷ rest) = highest_risk rest
highest_risk (pos v ∷ rest) = elim (highest_risk rest) [ none ↦ some v | some w ↦ some (max v w) ]

unfoldable pub focus_value : (anchored : Bool) → List ℤ → ℕ → ℕ
focus_value true risks value = value
focus_value false risks value = elim (highest_risk risks) [ none ↦ value | some v ↦ v ]

-- `S.latest`
pub record Situation : Type 0 where
  pub state : String
  pub hazard : String
  pub score : ℕ

-- One round of the loops of `syncLatest`.
unfoldable pub worse : Option Situation → Situation → Option Situation
worse none s = some s
worse (some w) s = if ltb w.score s.score then some s else some w

unfoldable pub worst_of : Option Situation → List Situation → Option Situation
worst_of worst [] = worst
worst_of worst (s ∷ rest) = worst_of (worse worst s) rest

-- Whether `syncLatest` announces the situation: it is critical, and of another state or hazard than
-- the one before.
abbrev pub is_new : Option Situation → Situation → Bool
is_new none s = true
is_new (some p) s = not (str_eq p.state s.state) || not (str_eq p.hazard s.hazard)

abbrev pub announces : Option Situation → Option Situation → Bool
announces prev none = false
announces prev (some s) = is_new prev s && leb 85 s.score

-- `syncLatest()`: the situation, and whether it is announced.
unfoldable pub sync_latest : Option Situation → List Situation → Option Situation × Bool
sync_latest prev situations = let worst = worst_of none situations in (worst, announces prev worst)
