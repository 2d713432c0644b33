-- ===== src/Sources/Tests.antt =====
-- The sources after the weather service has answered.
use aapda_sync.Sources.Cells
use aapda_sync.Sources.Cells.{apply_to_cell}
use aapda_sync.Base.{
  ℕ, ◌+◌, ◌-◌, ◌/◌, true, false, none, some, insert, [], ◌∷◌, ◌≡◌, ◌↔◌, ◌⊎◌, refl, lookup, map, min,
  max,
}
use aapda_sync.Sources.{
  Source, Status, Reading, LiveData, RowStatus, Kind, mark, source_fresh, reading, with_reading,
  row_status, provenance, live_anchored, live_data_healthy,
}
use aapda_sync.Base.Int.{pos, ◌+ℤ◌, ◌-ℤ◌}
use aapda_sync.Base.Hundredths.{hundredths}
use aapda_sync.Sources.Observed.{
  State, Maths, Obs, apply_to_state, observe_weather, observe, put_held, put_risk, obs_risk,
  clamp_score, within_scale,
}
use aapda_sync.Sources.Applied.{Row, Store, cells_for, apply_observations}
use aapda_sync.Sources.Applied.Gap.{cells_for-gap}
use aapda_sync.Sources.Applied.Whole.{AllFollowed, apply_observations-AllFollowed}
use aapda_sync.Sources.Window.{row_status-live_iff}
use aapda_sync.Sources.Provenance.{provenance-healthy_iff}

abbrev nothing : Reading
nothing = record { status = Status.idle; at = 0; ms = 0; error = none; tries = 0 }

abbrev start : LiveData
start = record {
  weather = nothing;
  flood = nothing;
  quake = nothing;
  enabled = true;
  ever_connected = false;
}

abbrev weather_in : LiveData
weather_in = mark 1000 Source.weather Status.live 80 none start

row_status-live_iff_example :
    (row_status 3000 Source.weather weather_in ≡ RowStatus.row_live)
    ↔ (source_fresh 3000 Source.weather weather_in ≡ true)
row_status-live_iff_example = row_status-live_iff 3000 Source.weather weather_in

provenance-healthy_iff_example :
    ((provenance 3000 weather_in ≡ Kind.all_live) ⊎ (provenance 3000 weather_in ≡ Kind.partial))
    ↔ ((weather_in.ever_connected ≡ true) × (live_data_healthy 3000 weather_in ≡ true))
provenance-healthy_iff_example = provenance-healthy_iff 3000 weather_in

anchored : live_anchored 3000 (("flood", 60) ∷ []) "flood" weather_in ≡ true
unfolding live_anchored source_fresh mark reading with_reading lookup
anchored = refl

abbrev maths : Maths ℕ
maths = record {
  sin = λ a. a;
  cos = λ a. 100 - a;
  asin = λ a. a;
  sqrt = λ a. a;
  pi = 314;
  nearest = λ a. pos (a / 100);
}

abbrev hot_day : Obs hundredths maths
hot_day = record {
  rain24 = some 0;
  rain72 = some 0;
  rain7d = some 1000;
  tmax = some 4200;
  gust = none;
  cape = none;
  discharge_ratio = none;
}

abbrev inland : State
inland = record {
  hz = ("heatwave", 40) ∷ ("cyclone", 20) ∷ [];
  live = [];
  obs = [];
  coastal = false;
}

abbrev observed : State
observed = (apply_to_state hundredths maths true false false hot_day 3000 7800 [] inland).0

abbrev upland : Row
upland = record { state = inland; dis = "Monitored"; primary = "heatwave" }

abbrev opened_upland : Store
opened_upland = record { focus = "up"; states = ("up", upland) ∷ []; cells = [] }

apply_observations-AllFollowed_example :
    (after : Store) × (n : ℕ) × (apply_observations hundredths maths
        (λ h. h)
        (λ id. some hot_day)
        (λ id. (3000, 7800))
        []
        3000
        weather_in
        opened_upland
      ≡ some (after, n))
    × AllFollowed "heatwave" opened_upland.states after.states
unfolding lookup
apply_observations-AllFollowed_example =
    apply_observations-AllFollowed hundredths maths (λ h. h) (λ id. some hot_day)
      (λ id. (3000, 7800)) [] "heatwave" 3000 weather_in opened_upland (("heatwave", 40, refl), tt)

observed-heatwave : observed.hz ≡ ("heatwave", 72) ∷ ("cyclone", 20) ∷ []
unfolding apply_to_state observe_weather observe put_held put_risk lookup insert obs_risk
    clamp_score within_scale
observed-heatwave = refl

abbrev valley : Cells.Cell
valley = record {
  risk = ("flood", pos 70) ∷ ("drought", pos 20) ∷ [];
  anchor = [];
  probability = [];
}

-- The weather is stale, and the state shows 60 again: its old live score of 40 moves the cell all the same.
stale_moves :
    lookup "flood" (apply_to_cell (("flood", 40) ∷ []) (("flood", 60) ∷ []) valley).risk
    ≡ some (pos 50)
unfolding lookup within_scale Cells.apply_rows insert ◌+ℤ◌ ◌-ℤ◌
stale_moves = refl

-- Inland the heat rises from 40 to 72, and with it that of a town.
abbrev town : Cells.Cell
town = record {
  risk = ("heatwave", pos 50) ∷ ("drought", pos 20) ∷ [];
  anchor = [];
  probability = [];
}

cells_for-gap_example :
    (cells_for hundredths maths
        (λ h. h)
        (λ id. some hot_day)
        (λ id. (3000, 7800))
        []
        "up"
        true
        false
        false
        "up"
        inland
        observed
        (town ∷ [])
      ≡ map (apply_to_cell observed.live inland.hz) (town ∷ []))
    × (lookup "heatwave" (apply_to_cell observed.live inland.hz town).risk
        ≡ some (pos (max 2 (min 99 (72 + 50 - 40)))))
    × (lookup "drought" (apply_to_cell observed.live inland.hz town).risk
        ≡ lookup "drought" town.risk)
unfolding lookup apply_to_state observe_weather observe put_held put_risk insert obs_risk
    clamp_score within_scale
cells_for-gap_example =
    cells_for-gap hundredths maths (λ h. h) (λ id. some hot_day) (λ id. (3000, 7800)) [] "up" true
      false false "up" hot_day inland "heatwave" "drought" 40 72 50 town (town ∷ []) refl
      (refl, (refl, tt)) refl refl refl refl refl
