-- ===== src/Sources/Provenance.antt =====
-- livedata.js, `provenance`: what the badge may say.
use aapda_sync.Base.{ℕ, String, List, Option, none, some, lookup, true, ◌≡◌, ◌↔◌, ◌⊎◌, arith}
use aapda_sync.Sources.{
  fresh_or_false, live_anchored, hazard_sources, Source, LiveData, Kind, source_fresh, provenance,
  live_data_healthy,
}

-- The badge says "live" exactly when something has ever been received and all three sources are
-- fresh.
pub provenance-live_iff :
    (now : ℕ) (d : LiveData)
    → (provenance now d ≡ Kind.all_live) ↔ (
        (d.ever_connected ≡ true)
        × (source_fresh now Source.weather d ≡ true)
        × (source_fresh now Source.flood d ≡ true)
        × (source_fresh now Source.quake d ≡ true))
unfolding provenance
provenance-live_iff now d = ground arith

-- The badge says "part observed" or "live" exactly when something has ever been received and one
-- source is fresh at least.
pub provenance-healthy_iff :
    (now : ℕ) (d : LiveData)
    → ((provenance now d ≡ Kind.all_live) ⊎ (provenance now d ≡ Kind.partial))
      ↔ ((d.ever_connected ≡ true) × (live_data_healthy now d ≡ true))
unfolding provenance live_data_healthy
provenance-healthy_iff now d = ground arith

fresh-healthy :
    (now : ℕ) (k : Source) (d : LiveData)
    → source_fresh now k d ≡ true
    → live_data_healthy now d ≡ true
unfolding live_data_healthy
fresh-healthy now Source.weather d h = ground arith
fresh-healthy now Source.flood d h = ground arith
fresh-healthy now Source.quake d h = ground arith

fresh_or_false-healthy :
    (now : ℕ) (k : Option Source) (d : LiveData)
    → fresh_or_false now k d ≡ true
    → live_data_healthy now d ≡ true
fresh_or_false-healthy now none d h = absurd (ground arith)
fresh_or_false-healthy now (some k) d h = fresh-healthy now k d h

-- Where a figure is held as observed, the badge says "part observed" or "live".
pub live_anchored-provenance :
    (now : ℕ) (observed : List (String × ℕ)) (hazard : String) (d : LiveData)
    → live_anchored now observed hazard d ≡ true
    → (provenance now d ≡ Kind.all_live) ⊎ (provenance now d ≡ Kind.partial)
unfolding live_anchored
live_anchored-provenance now observed hazard d h =
    (provenance-healthy_iff now d).1
      (ground arith, fresh_or_false-healthy now (lookup hazard hazard_sources) d (ground arith))
