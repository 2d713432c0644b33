-- ===== src/Reports/Queue.antt =====
-- actions.js, `submitReport`: what the queue and the timeline hold afterwards.
use mathlib.Core.Path.{subst}
use aapda_sync.Base.{is_empty, ◌≤◌, ◌-◌, false, List, [], ◌∷◌, length, length-take, ◌≡◌, sym, arith}
use aapda_sync.Reports.{
  Report, Store, Line, Form, is_used, log, next_report_id, new_report, submit_report, place_name,
  location, category,
}
use aapda_sync.Reports.Ids.{next_report_id-unused}

-- No two reports have one id.
abbrev pub IsDistinct : List Report → Type 0
IsDistinct [] = Unit
IsDistinct (r ∷ rs) = (is_used rs r.id ≡ false) × IsDistinct rs

length-log :
    (line : Line) (timeline : List Line) → length timeline ≤ 60 → length (log line timeline) ≤ 60
unfolding log
length-log line timeline h =
    ground (arith, length-take (length (line ∷ timeline) - 1) (line ∷ timeline))

-- A report with a description stands first in the queue, pending, in the person's own words; the
-- others stand behind it as they did, and if their ids differ, all ids do. The timeline holds at
-- most 60 lines if it did.
pub submit_report-queued :
    (form : Form) (s : Store)
    → is_empty form.desc ≡ false
    → IsDistinct s.reports
    → length s.timeline ≤ 60
    → ((submit_report form s).reports ≡ new_report (next_report_id s.reports) form ∷ s.reports)
      × IsDistinct (submit_report form s).reports
      × (length (submit_report form s).timeline ≤ 60)
unfolding submit_report
submit_report-queued form s h d short =
    let id = next_report_id s.reports in
    let queued : (submit_report form s).reports ≡ new_report id form ∷ s.reports = ground arith in
    let line : Line = record {
      k = "report";
      id = id;
      place = place_name s.names form.zone (location form);
      cat = category form;
    } in
    (
      queued,
      subst IsDistinct (sym queued) ((next_report_id-unused s.reports).0, d),
      ground (arith, length-log line s.timeline short),
    )
