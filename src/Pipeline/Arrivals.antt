-- ===== src/Pipeline/Arrivals.antt =====
-- boot.js, `EVENTS`: what the events do to a shelter and to the queue of reports.
use mathlib.Core.Path.{subst}
use aapda_sync.Base.{ℕ, ◌+◌, ◌*◌, ◌/◌, ◌≤◌, min, max, true, false, String, List, ◌∷◌, ◌≡◌, arith}
use aapda_sync.Base.Int.{ℤ}
use aapda_sync.Pipeline.{clamp}
use aapda_sync.Pipeline.Events.{arrive, report_event, has_pending, drawn_report}
use aapda_sync.Shelters.{Shelter, recompute_shelter, candidates}
use aapda_sync.Shelters.Capacity.{tightest-space}
use aapda_sync.Reports.{ReportId, Report, is_used}
use aapda_sync.Reports.Queue.{IsDistinct}

-- However many people arrive, a shelter holds at most 105 of 100 afterwards, and together with the
-- places it offers at most nine tenths, unless more people are there already: then it offers none.
pub arrive-capacity :
    (arrived : ℕ) (water food : ℤ) (s : Shelter)
    → (100 * (arrive arrived water food s).current_occupancy ≤ 105 * s.max_capacity + 50)
      × ((arrive arrived water food s).effective_capacity
            + (arrive arrived water food s).current_occupancy
          ≤ max (arrive arrived water food s).current_occupancy (s.max_capacity * 9 / 10))
unfolding arrive recompute_shelter candidates
arrive-capacity arrived water food s =
    let occ = min (s.current_occupancy + arrived) ((2 * s.max_capacity * 105 + 100) / 200) in
    let c = candidates s.max_capacity occ (clamp water 0 140) (clamp food 0 140) s.medical_staff in
    (omega arith, ground (arith, tightest-space c))

-- The id of a report that the simulated feed draws is not compared with those in the queue: where it
-- is used and no report is pending, two reports carry one id afterwards.
pub report_event-duplicates :
    (id : ReportId) (cat loc cell officer : String) (reports : List Report)
    → has_pending reports ≡ false
    → is_used reports id ≡ true
    → ¬ IsDistinct (report_event id cat loc cell officer reports)
unfolding report_event
report_event-duplicates id cat loc cell officer reports none_pending used d =
    let queued : report_event id cat loc cell officer reports
        ≡ drawn_report id cat loc cell ∷ reports =
      ground arith in
    let fresh = (subst IsDistinct queued d).0 in ground (arith, fresh)
