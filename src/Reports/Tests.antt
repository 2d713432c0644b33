-- ===== src/Reports/Tests.antt =====
-- A queue of three reports, and a fourth.
use aapda_sync.Base.{◌+◌, ◌≤◌, false, none, some, List, [], ◌∷◌, length, ◌≡◌, refl, arith}
use aapda_sync.Reports.{
  ReportId, cr, Report, Store, Form, is_used, next_report_id, next_free, new_report, submit_report,
}
use aapda_sync.Reports.Ids.{next_report_id-unused}
use aapda_sync.Reports.Queue.{IsDistinct, submit_report-queued}

abbrev report : ReportId → Report
report id = record {
  id = id;
  cat = "Road blocked";
  loc = "NH-7";
  cell = none;
  desc = "Rocks on the road";
  phone = none;
  st = "pending";
  by = none;
  src = "citizen";
}

abbrev queue : List Report
queue =
    report (cr 40233) ∷ report (record { state = "BR"; number = 40234 }) ∷ report (cr 40234) ∷ []

-- CR-40233 and CR-40234 are used.
next_of_queue : next_report_id queue ≡ cr 40235
unfolding next_report_id next_free is_used
next_of_queue = refl

next_report_id-unused_example :
    (is_used queue (next_report_id queue) ≡ false)
    × ((next_report_id queue).state ≡ "")
    × (40230 + length queue ≤ (next_report_id queue).number)
next_report_id-unused_example = next_report_id-unused queue

abbrev store : Store
store = record { reports = queue; timeline = []; names = []; dw = some "report" }

abbrev form : Form
form = record {
  cat = "Road blocked";
  other = "";
  loc = "";
  desc = "A tree has fallen";
  phone = "";
  zone = none;
}

queue-IsDistinct : IsDistinct queue
unfolding is_used
queue-IsDistinct = (refl, (refl, (refl, tt)))

submit_report-queued_example :
    ((submit_report form store).reports ≡ new_report (next_report_id queue) form ∷ queue)
    × IsDistinct (submit_report form store).reports
    × (length (submit_report form store).timeline ≤ 60)
submit_report-queued_example = submit_report-queued form store refl queue-IsDistinct (omega arith)
