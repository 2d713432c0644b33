-- ===== src/Pipeline/Tests.antt =====
-- A cell that drifts, and a callback after three seconds.
use aapda_sync.Base.{
  refl, ◌+◌, ◌≤◌, true, false, Option, none, some, String, [], ◌∷◌, length, get_elem?, lookup, ◌≡◌,
  arith,
}
use aapda_sync.Base.Int.{ℤ, pos, negsuc}
use aapda_sync.Pipeline.{Cell, Loop, drift_cell, is_full, draws_event}
use aapda_sync.Shelters.{Shelter, Condition, mk_shelter}
use aapda_sync.Reports.{cr, Report, is_used}
use aapda_sync.Pipeline.Events.{drawn_report}
use aapda_sync.Pipeline.Drift.{AllInScale, hazards, drift_cell-InScale}
use aapda_sync.Pipeline.Schedule.{count, is_full-once}
use aapda_sync.Base.Sorts.{IsAscending}
use aapda_sync.Feed.{row_age}
use aapda_sync.Feed.Push.{count_id}
use aapda_sync.States.Alerts.{Alert, sev_for}
use aapda_sync.States.Profiles.FromUt.{bihar}
use aapda_sync.Pipeline.Warnings.{Warnings, warning_event}
use aapda_sync.Pipeline.Published.{warning_event-published}

abbrev cell : Cell
cell = record {
  risk = ("flood", pos 60) ∷ ("tsunami", negsuc 0) ∷ [];
  rainfall_24h = some 90;
  hist = [];
}

abbrev no_anchor : String → Option ℤ
no_anchor hz = none

abbrev high : String → ℤ
high hz = pos 120

drift_cell-InScale_example :
    AllInScale (drift_cell true no_anchor high false (pos 95) cell).risk
    × (hazards (drift_cell true no_anchor high false (pos 95) cell).risk ≡ hazards cell.risk)
    × (length (drift_cell true no_anchor high false (pos 95) cell).hist ≤ 4)
drift_cell-InScale_example =
    drift_cell-InScale true no_anchor high false (pos 95) cell (λ hz. tt)
      ((omega arith, omega arith), (tt, tt)) (omega arith)

is_full-once_example :
    (count (is_full 5) + count (is_full (5 + 1)) + count (is_full (5 + 2)) + count (is_full (5 + 3))
      ≡ 1)
    × (count (draws_event 5) ≤ count (is_full 5))
is_full-once_example = is_full-once 5

abbrev loop : Loop
loop = record { last_tick_at = 1000; tick_count = 3 }

abbrev hall : Shelter
hall = mk_shelter [] (record {
  id = "SH-1";
  name = "Hall";
  zone = "A1";
  cap = 200;
  occ = 150;
  water = 40;
  food = 40;
  med = 3;
  state = Condition.ready;
})

abbrev verified : Report
verified = record (drawn_report (cr 40300) "Road blocked" "Joshimath" "B2") { st = "verified" }

used_id : is_used (verified ∷ []) (cr 40300) ≡ true
unfolding is_used
used_id = refl

abbrev quiet : Warnings
quiet = record { alerts = []; national = [] }

-- A warning of the first hazard of Bihar that scores 45.
warning_event-published_example :
    (w' : Warnings) × (a : Alert) × (warning_event 1000 "br" "Bihar" "CAP-BR-1234" bihar [] bihar.hz
        0 quiet
      ≡ some w')
    × (get_elem? w'.alerts 0 ≡ some a)
    × ((a.haz ≡ "flood") × (a.sev ≡ sev_for 76) × (45 ≤ 76))
    × (length w'.alerts ≤ 10)
    × IsAscending row_age w'.national
    × (length w'.national ≤ 60)
    × (count_id a.id w'.national ≡ 1)
unfolding lookup
warning_event-published_example =
    warning_event-published 1000 "br" "Bihar" "CAP-BR-1234" bihar [] bihar.hz 0 "flood" 76 quiet
      refl refl (omega arith) (omega arith)
