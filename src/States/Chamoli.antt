-- ===== src/States/Chamoli.antt =====
-- data.js `loadState`, its first branch: what it makes of the register of Chamoli. A risk of -1 and a
-- probability of null are left out of their lists, which reads the same; the text `short` and times
-- are left out. Where the source computes with doubles, fractions are computed with here: at half a
-- unit the double is below it for the probability of Nauli (0.276) and the rain of Marwari (379).
pub mod Register
pub mod Placed
use aapda_sync.Base.{
  ℕ, ◌+◌, ◌-◌, ◌*◌, ◌&&◌, not, Option, none, some, String, List, [], ◌∷◌, map, or_else, get_elem?,
  if◌then◌else◌, ltb, joined, str_eq,
}
use aapda_sync.Base.Int.{ℤ, pos, negsuc}
use aapda_sync.Base.Fractions.{frac, rounded}
use aapda_sync.States.Cells.{Cell, Past, letters, digits}
use aapda_sync.States.Load.{Loaded, mk_shelters, is_given}
use aapda_sync.States.Chamoli.Register.{
  Survey, ut_cells, ut_shelters, ut_hospitals, ut_alerts, ut_roads, ut_reports,
}

-- `'ABCDE'.indexOf(gid[0])`, for the letters of the grid.
abbrev pub index_in : List String → String → ℕ
index_in [] letter = 0
index_in (l ∷ ls) letter = if str_eq l letter then 0 else 1 + index_in ls letter

abbrev pub scored : String → ℤ → List (String × ℕ) → List (String × ℕ)
scored h (negsuc v) rows = rows
scored h (pos v) rows = (h, v) ∷ rows

-- `+(v / 100 * w).toFixed(3)`, for a weight `w` in hundredths.
abbrev pub likely : (w : ℕ) → String → ℤ → List (String × ℕ) → List (String × ℕ)
likely w h (negsuc v) rows = rows
likely w h (pos v) rows = (h, rounded 1000 (frac (v * w) 10000)) ∷ rows

-- `conf`
abbrev pub conf_of : ℤ → (hand : ℕ) → (riv : Option ℕ) → ℕ
conf_of (negsuc v) hand riv = 0
conf_of (pos v) hand riv =
    if ltb 0 v && not (is_given riv) then 62 else 84 - (if ltb 300 hand then 9 else 0)

abbrev pub unless_negative : ℤ → ℕ → ℕ
unless_negative (negsuc v) conf = 0
unless_negative (pos v) conf = conf

-- `riv == null && fl > 0 ? ['cwc'] : []`
abbrev pub no_feed : ℤ → Option ℕ → List String
no_feed (negsuc v) riv = []
no_feed (pos v) riv = if ltb 0 v && not (is_given riv) then "cwc" ∷ [] else []

-- `Math.max(0, Math.round(v - ago * (v > 60 ? steep : flat)))`
abbrev pub earlier : (steep flat ago : ℕ) → ℤ → ℕ
earlier steep flat ago (negsuc v) = 0
earlier steep flat ago (pos v) = v - ago * (if ltb 60 v then steep else flat)

abbrev pub surveyed_past : Survey → ℕ → Past
surveyed_past r ago = record {
  age = ago * 45;
  scores = ("flood", earlier 17 8 ago r.fl) ∷ ("landslide", earlier 13 6 ago r.ls) ∷ [];
}

abbrev pub rain_72h : Option ℕ → Option ℕ
rain_72h none = none
rain_72h (some rain) = some (rounded 1 (frac (rain * 23) 10))

abbrev pub moisture_of : Option ℕ → Option ℕ
moisture_of none = none
moisture_of (some rain) = some (rounded 100 (frac (198 + rain) 900))

-- `UT_CELLS.map(...)`, for a row.
abbrev pub surveyed : Survey → Cell
surveyed r = record {
  id = joined (r.place.0 ∷ or_else (get_elem? digits (r.place.1 - 1)) "" ∷ []);
  cell_id = r.h3;
  col = index_in letters r.place.0;
  row = r.place.1 - 1;
  name = r.name;
  risk = scored "flood" r.fl (scored "landslide" r.ls []);
  probability = likely 86 "flood" r.fl (likely 79 "landslide" r.ls []);
  confidence =
      ("flood", unless_negative r.fl (conf_of r.fl r.hand r.riv))
      ∷ ("landslide", unless_negative r.ls (conf_of r.fl r.hand r.riv - 6))
      ∷ [];
  pop = r.pop;
  elevation_m = r.elev;
  slope_deg = r.slope;
  hand_m = r.hand;
  rainfall_24h = r.rain;
  rainfall_72h = rain_72h r.rain;
  river_ratio = r.riv;
  soil_moisture = moisture_of r.rain;
  degraded = no_feed r.fl r.riv;
  hist = map (surveyed_past r) (3 ∷ 2 ∷ 1 ∷ 0 ∷ []);
}

-- The operational data of Chamoli, for the hazard in view.
unfoldable pub chamoli : (hazard : String) → Loaded
chamoli hazard = record {
  cells = map surveyed ut_cells;
  shelters = mk_shelters hazard (map surveyed ut_cells) ut_shelters;
  hospitals = ut_hospitals;
  alerts = ut_alerts;
  roads = ut_roads;
  reports = ut_reports;
}
