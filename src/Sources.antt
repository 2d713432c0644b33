-- ===== src/Sources.antt =====
-- The live data sources: frontend/standalone/src/livedata.js, `mark`, the test of `pullAll` whether a
-- source is due, `sourceFresh`, `liveAnchored`, `syncSourceRows`, `liveDataHealthy` and
-- `provenance`. Times are in milliseconds.
pub mod Window
pub mod Provenance
pub mod Observed
pub mod Cells
pub mod Applied
mod Tests
use aapda_sync.Base.{
  ℕ, suc, ◌+◌, ◌-◌, ◌*◌, Bool, true, false, not, ◌&&◌, ◌||◌, Option, none, some, String, List, [],
  ◌∷◌, if◌then◌else◌, ltb, leb, nat_eq, lookup, any, keep,
}

pub data Source : Type 0 where
  weather flood quake : Source

pub data Status : Type 0 where
  idle live failed : Status

-- `LIVEDATA.src[key]`
pub record Reading : Type 0 where
  pub status : Status
  pub at : ℕ
  pub ms : ℕ
  pub error : Option String
  pub tries : ℕ

pub record LiveData : Type 0 where
  pub weather : Reading
  pub flood : Reading
  pub quake : Reading
  pub enabled : Bool
  pub ever_connected : Bool

abbrev pub cadence : Source → ℕ
cadence Source.weather = 15 * 60000
cadence Source.flood = 6 * 3600000
cadence Source.quake = 5 * 60000

abbrev pub stale_after : Source → ℕ
stale_after Source.weather = 90 * 60000
stale_after Source.flood = 36 * 3600000
stale_after Source.quake = 60 * 60000

unfoldable pub reading : Source → LiveData → Reading
reading Source.weather d = d.weather
reading Source.flood d = d.flood
reading Source.quake d = d.quake

unfoldable pub with_reading : Source → Reading → LiveData → LiveData
with_reading Source.weather r d = record d { weather = r }
with_reading Source.flood r d = record d { flood = r }
with_reading Source.quake r d = record d { quake = r }

abbrev pub is_live : Status → Bool
is_live Status.idle = false
is_live Status.live = true
is_live Status.failed = false

-- `mark(key, status, ms, error)`; the rows of the register are a function of the state, `row_status`.
unfoldable pub mark : ℕ → Source → Status → ℕ → Option String → LiveData → LiveData
mark now key status ms error d =
    let r : Reading = record (reading key d) { status = status; ms = ms; error = error } in
    if is_live status
    then record (with_reading key (record r { at = now; tries = 0 }) d) { ever_connected = true }
    else with_reading key (record r { tries = suc r.tries }) d

-- `due(k)` of `pullAll`
unfoldable pub due : ℕ → Source → LiveData → Bool
due now key d = leb (cadence key) (now - (reading key d).at) || not (is_live (reading key d).status)

abbrev pub all_sources : List Source
all_sources = Source.weather ∷ Source.flood ∷ Source.quake ∷ []

-- The requests that `pullAll` sends.
unfoldable pub pull_jobs : ℕ → LiveData → List Source
pull_jobs now d = if d.enabled then keep (λ k. due now k d) all_sources else []

unfoldable pub source_fresh : ℕ → Source → LiveData → Bool
source_fresh now key d =
    is_live (reading key d).status && ltb (now - (reading key d).at) (stale_after key)

unfoldable pub live_data_healthy : ℕ → LiveData → Bool
live_data_healthy now d = any (λ k. source_fresh now k d) all_sources

-- `HAZARD_SOURCE[hazard]`
abbrev pub hazard_sources : List (String × Source)
hazard_sources =
    ("flood", Source.weather)
    ∷ ("landslide", Source.weather)
    ∷ ("heatwave", Source.weather)
    ∷ ("drought", Source.weather)
    ∷ ("wildfire", Source.weather)
    ∷ ("lightning", Source.weather)
    ∷ ("cyclone", Source.weather)
    ∷ ("earthquake", Source.quake)
    ∷ []

abbrev pub fresh_or_false : ℕ → Option Source → LiveData → Bool
fresh_or_false now none d = false
fresh_or_false now (some key) d = source_fresh now key d

-- `st.live[hazard] != null`
abbrev pub is_observed : Option ℕ → Bool
is_observed none = false
is_observed (some v) = true

-- `liveAnchored(stateId, hazard)`, with the values observed for that state, `st.live`.
unfoldable pub live_anchored :
    ℕ → (observed : List (String × ℕ)) → (hazard : String) → LiveData → Bool
live_anchored now observed hazard d =
    d.ever_connected
    && fresh_or_false now (lookup hazard hazard_sources) d
    && is_observed (lookup hazard observed)

-- The status of a row of the register.
pub data RowStatus : Type 0 where
  row_live row_stale row_failed row_nc : RowStatus

unfoldable pub row_status : ℕ → Source → LiveData → RowStatus
row_status now key d = elim ((reading key d).status) [
  | Status.live ↦
      if ltb (now - (reading key d).at) (stale_after key)
      then RowStatus.row_live
      else RowStatus.row_stale
  | Status.failed ↦ RowStatus.row_failed
  | Status.idle ↦ RowStatus.row_nc
]

-- The `kind` that `provenance` returns.
pub data Kind : Type 0 where
  modelled connecting stale partial all_live : Kind

unfoldable pub provenance : ℕ → LiveData → Kind
provenance now d =
    let tried = any (λ k. ltb 0 (reading k d).tries) all_sources in
    let fresh = any (λ k. source_fresh now k d) all_sources in
    let missing = any (λ k. not (source_fresh now k d)) all_sources in
    if not d.ever_connected
    then (if tried then Kind.modelled else Kind.connecting)
    else if not fresh
    then Kind.stale
    else if missing
    then Kind.partial
    else Kind.all_live
