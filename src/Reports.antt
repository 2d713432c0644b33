-- ===== src/Reports.antt =====
-- The citizens' reports and the timeline: frontend/standalone/src/actions.js `nextReportId` and
-- `submitReport`, and data.js `log`. An id is the text 'CR-', the letters of a state if a state's
-- register made the report (states.js `buildStateReports`), and a number: the letters, which hold no
-- digit, and the number stand for it here.
pub mod Ids
pub mod Queue
mod Tests
use aapda_sync.Base.{
  ℕ, zero, suc, ◌+◌, ◌-◌, ◌||◌, ◌&&◌, not, String, Bool, true, false, Option, none, some, List, [],
  ◌∷◌, length, take, map, if◌then◌else◌, nat_eq, str_eq, is_empty, ltb, any, find,
}

pub record ReportId : Type 0 where
  pub state : String
  pub number : ℕ

-- `'CR-' + n`
abbrev pub cr : ℕ → ReportId
cr n = record { state = ""; number = n }

abbrev pub same_id : ReportId → ReportId → Bool
same_id a b = str_eq a.state b.state && nat_eq a.number b.number

pub record Report : Type 0 where
  pub id : ReportId
  pub cat : String
  pub loc : String
  pub cell : Option String
  pub desc : String
  pub phone : Option String
  pub st : String
  pub by : Option String
  pub src : String

-- What a line of the timeline says of a report: its id, the place and the category.
pub record Line : Type 0 where
  pub k : String
  pub id : ReportId
  pub place : String
  pub cat : String

-- The part of the store that a report changes, and the names of the cells by their ids.
pub record Store : Type 0 where
  pub reports : List Report
  pub timeline : List Line
  pub names : List (String × String)
  pub dw : Option String

-- `used.has(id)`
unfoldable pub is_used : List Report → ReportId → Bool
is_used reports id = any (λ (r : Report). same_id r.id id) reports

-- `while (used.has('CR-' + n)) n++`, on fuel.
unfoldable pub next_free : ℕ → List Report → ℕ → ℕ
next_free zero reports n = n
next_free (suc fuel) reports n =
    let later = next_free fuel reports (suc n) in if is_used reports (cr n) then later else n

-- `nextReportId()`. As many rounds as there are reports pass over all of them.
unfoldable pub next_report_id : List Report → ReportId
next_report_id reports = cr (next_free (length reports) reports (40230 + length reports))

-- `S.timeline.unshift(…); if (S.timeline.length > 60) S.timeline.pop()`
unfoldable pub log : Line → List Line → List Line
log line timeline =
    let lines = line ∷ timeline in
    if ltb 60 (length lines) then take (length lines - 1) lines else lines

-- The form, its texts trimmed: the category chosen and the one written, and the zone that is
-- selected.
pub record Form : Type 0 where
  pub cat : String
  pub other : String
  pub loc : String
  pub desc : String
  pub phone : String
  pub zone : Option String

abbrev pub category : Form → String
category form =
    if str_eq form.cat "Something else" && not (is_empty form.other) then form.other else form.cat

abbrev pub location : Form → String
location form = if is_empty form.loc then "Location not given" else form.loc

-- `cell ? cell.name : loc`, with the names of the cells by their ids.
unfoldable pub place_name : List (String × String) → Option String → String → String
place_name names none loc = loc
place_name [] (some id) loc = loc
place_name ((key, name) ∷ names) (some id) loc =
    if str_eq key id then name else place_name names (some id) loc

abbrev pub new_report : ReportId → Form → Report
new_report id form = record {
  id = id;
  cat = category form;
  loc = location form;
  cell = form.zone;
  desc = form.desc;
  phone = if is_empty form.phone then none else some form.phone;
  st = "pending";
  by = none;
  src = "citizen";
}

-- `submitReport()`. A report without a description is turned back.
unfoldable pub submit_report : Form → Store → Store
submit_report form s =
    let id = next_report_id s.reports in
    if is_empty form.desc then s else record s {
      reports = new_report id form ∷ s.reports;
      timeline =
          log
            (record {
              k = "report";
              id = id;
              place = place_name s.names form.zone (location form);
              cat = category form;
            })
            s.timeline;
      dw = none;
    }
