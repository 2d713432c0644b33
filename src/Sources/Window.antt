-- ===== src/Sources/Window.antt =====
-- livedata.js: how long a reading counts, and when a source is asked again.
use aapda_sync.Base.{
  ℕ, suc, ◌+◌, ◌≤◌, ◌<◌, true, false, Option, none, String, ◌≡◌, ◌↔◌, refl, arith,
}
use aapda_sync.Sources.{
  Source, Status, Reading, LiveData, RowStatus, cadence, stale_after, reading, with_reading, mark,
  due, source_fresh, row_status,
}

reading-with_reading :
    (k : Source) (r : Reading) (d : LiveData) → reading k (with_reading k r d) ≡ r
unfolding reading with_reading
reading-with_reading Source.weather r d = refl
reading-with_reading Source.flood r d = refl
reading-with_reading Source.quake r d = refl

-- A reading that has just come in is fresh exactly until its window closes, and its source is due
-- again exactly when its cadence has passed; which is earlier.
pub mark-live :
    (now later : ℕ) (k : Source) (ms : ℕ) (d : LiveData)
    → now ≤ later
    → ((source_fresh later k (mark now k Status.live ms none d) ≡ true)
        ↔ (later < now + stale_after k))
      × ((due later k (mark now k Status.live ms none d) ≡ true) ↔ (now + cadence k ≤ later))
      × (cadence k < stale_after k)
unfolding mark source_fresh due reading with_reading
mark-live now later Source.weather ms d h = (ground arith, ground arith, ground arith)
mark-live now later Source.flood ms d h = (ground arith, ground arith, ground arith)
mark-live now later Source.quake ms d h = (ground arith, ground arith, ground arith)

-- After a request that failed the source counts as not fresh at once, also where its last reading is
-- inside its window; it keeps the time of that reading, and it is due at every round.
pub mark-failed :
    (now later : ℕ) (k : Source) (ms : ℕ) (error : Option String) (d : LiveData)
    → (source_fresh later k (mark now k Status.failed ms error d) ≡ false)
      × (due later k (mark now k Status.failed ms error d) ≡ true)
      × ((reading k (mark now k Status.failed ms error d)).at ≡ (reading k d).at)
      × ((reading k (mark now k Status.failed ms error d)).tries ≡ suc (reading k d).tries)
unfolding mark source_fresh due reading with_reading
mark-failed now later Source.weather ms error d = ground arith
mark-failed now later Source.flood ms error d = ground arith
mark-failed now later Source.quake ms error d = ground arith

-- The register shows a source as live exactly when it is fresh.
pub row_status-live_iff :
    (now : ℕ) (k : Source) (d : LiveData)
    → (row_status now k d ≡ RowStatus.row_live) ↔ (source_fresh now k d ≡ true)
unfolding row_status source_fresh
row_status-live_iff now k d = ground arith
