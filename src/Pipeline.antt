-- ===== src/Pipeline.antt =====
-- The simulated pipeline: frontend/standalone/src/boot.js, `driftCells` (the risks, the rain and the
-- readings of a cell), the counter of `pipelineTick` and the loop that calls both each second. What
-- the arithmetic of doubles and the random numbers give is an argument: the value before it is
-- clamped.
pub mod Drift
pub mod Schedule
pub mod Events
pub mod Arrivals
pub mod Warnings
pub mod Published
mod Tests
use aapda_sync.Base.{
  ℕ, zero, suc, ◌+◌, ◌-◌, ◌*◌, ◌/◌, ◌%◌, ◌≤◌, min, max, Bool, true, false, ◌&&◌, not, Option, none,
  some, String, List, [], ◌∷◌, ◌++◌, map, length, drop, if◌then◌else◌, ltb, leb, nat_eq, lookup,
}
use aapda_sync.Base.Int.{ℤ, pos, negsuc}

-- `clamp(v, lo, hi)`, between bounds that are not negative.
unfoldable pub clamp : ℤ → ℕ → ℕ → ℕ
clamp (pos v) lo hi = max lo (min hi v)
clamp (negsuc v) lo hi = lo

-- A cell: its risks by hazard, negative where there are no data; the rain of a day; and the last
-- readings.
pub record Cell : Type 0 where
  pub risk : List (String × ℤ)
  pub rainfall_24h : Option ℕ
  pub hist : List (List (String × ℕ))

-- One round of the loop over the hazards: `anchor` is the observed value, where the hazard is
-- anchored and the cell has one, and `next` is `Math.round(cell.risk[hz] + step)`.
unfoldable pub drift_risk : (anchor : Option ℤ) (next : ℤ) → ℤ → ℤ
drift_risk anchor next (negsuc v) = negsuc v
drift_risk (some a) next (pos v) = a
drift_risk none next (pos v) = pos (clamp next 2 99)

unfoldable pub drift_risks :
    (anchor : String → Option ℤ) (next : String → ℤ) → List (String × ℤ) → List (String × ℤ)
drift_risks anchor next [] = []
drift_risks anchor next ((hz, v) ∷ rest) =
    (hz, drift_risk (anchor hz) (next hz) v) ∷ drift_risks anchor next rest

-- `Math.max(cell.risk[hz], 0)`
abbrev pub not_below_zero : ℤ → ℕ
not_below_zero (pos v) = v
not_below_zero (negsuc v) = 0

abbrev pub snapshot : List (String × ℤ) → List (String × ℕ)
snapshot [] = []
snapshot ((hz, v) ∷ rest) = (hz, not_below_zero v) ∷ snapshot rest

-- `cell.hist.push(snap); if (cell.hist.length > 4) cell.hist.shift()`
unfoldable pub push_reading :
    List (String × ℕ) → List (List (String × ℕ)) → List (List (String × ℕ))
push_reading snap hist =
    if ltb 4 (length (hist ++ snap ∷ [])) then drop 1 (hist ++ snap ∷ []) else hist ++ snap ∷ []

-- The rain drifts unless it is observed; `next` is the sum before it is clamped,
-- rounded.
unfoldable pub drift_rain : (observed : Bool) (next : ℤ) → Option ℕ → Option ℕ
drift_rain observed next none = none
drift_rain true next (some r) = some r
drift_rain false next (some r) = some (clamp next 12 340)

-- What `driftCells(scale)` does to one cell; `full` is `scale >= 1`.
unfoldable pub drift_cell :
    (full : Bool) (anchor : String → Option ℤ) (next : String → ℤ) (observed_rain : Bool)
    (next_rain : ℤ)
    → Cell
    → Cell
drift_cell full anchor next observed_rain next_rain cell =
    let risk = drift_risks anchor next cell.risk in
    record cell {
      risk = risk;
      rainfall_24h = drift_rain observed_rain next_rain cell.rainfall_24h;
      hist = if full then push_reading (snapshot risk) cell.hist else cell.hist;
    }

abbrev pub tick_ms : ℕ
tick_ms = 1000

abbrev pub full_every : ℕ
full_every = 4

-- Whether the tick with that count is a full one, and whether it draws an event.
unfoldable pub is_full : ℕ → Bool
is_full tick_count = nat_eq (tick_count % full_every) (full_every - 1)

unfoldable pub draws_event : ℕ → Bool
draws_event tick_count =
    is_full tick_count && nat_eq (tick_count % (full_every * 3)) (full_every * 3 - 1)

-- One run of a step of the pipeline: a quarter step of a catch-up, or a tick.
pub data Run : Type 0 where
  quarter : Run
  tick : (full event : Bool) → Run

pub record Loop : Type 0 where
  pub last_tick_at : ℕ
  pub tick_count : ℕ

-- `for (let i = 1; i < missed; i++)`
unfoldable pub quarters : ℕ → List Run
quarters zero = []
quarters (suc zero) = []
quarters (suc (suc n)) = Run.quarter ∷ quarters (suc n)

-- The callback of the interval: the steps it takes, in their order, and the loop's next state.
unfoldable pub each_second : ℕ → Loop → List Run × Loop
each_second now l =
    let missed = min ((now - l.last_tick_at) / tick_ms) 120 in
    (
      quarters missed ++ Run.tick (is_full l.tick_count) (draws_event l.tick_count) ∷ [],
      record { last_tick_at = now; tick_count = suc l.tick_count },
    )
