-- ===== src/Sources/Observed.antt =====
-- livedata.js: `obsRisk`, `quakeRiskFor`, and what `applyObservations` does to the risks of a state.
-- Doubles are `Floats`, with the functions of `Math` that the distance takes; a double that
-- Math.round gives is a whole number, there is no NaN among the observations.
pub mod Kept
use aapda_sync.Base.Int.{ℤ, pos, negsuc}
use aapda_sync.Base.Floats.{num, greatest, Floats}
use aapda_sync.Base.{
  ℕ, suc, ◌+◌, min, max, Bool, true, false, not, ◌&&◌, ◌||◌, Option, none, some, String, List, [],
  ◌∷◌, if◌then◌else◌, lookup, insert, or_else,
}

pub data Hazard : Type 0 where
  flood landslide heatwave drought wildfire lightning cyclone earthquake : Hazard

abbrev pub key_of : Hazard → String
key_of Hazard.flood = "flood"
key_of Hazard.landslide = "landslide"
key_of Hazard.heatwave = "heatwave"
key_of Hazard.drought = "drought"
key_of Hazard.wildfire = "wildfire"
key_of Hazard.lightning = "lightning"
key_of Hazard.cyclone = "cyclone"
key_of Hazard.earthquake = "earthquake"

-- What `applyObservations` reads and writes of `S.states[id]`: the risks, those that are observed,
-- and where they come from.
pub record State : Type 0 where
  pub hz : List (String × ℕ)
  pub live : List (String × ℕ)
  pub obs : List (String × String)
  pub coastal : Bool

-- Math.max(2, Math.min(99, v)), of a whole number.
unfoldable pub within_scale : ℤ → ℕ
within_scale (pos v) = max 2 (min 99 v)
within_scale (negsuc v) = 2

-- A risk that is observed takes the place of the modelled one.
unfoldable pub put_risk : (hazard source : String) → ℕ → State → State
put_risk hazard source v st = record st {
  hz = insert hazard v st.hz;
  live = insert hazard v st.live;
  obs = insert hazard source st.obs;
}

-- `held` is the risk that the state shows of the hazard: one that it does not have is passed over.
-- With the state, how many risks were touched.
unfoldable pub put_held : (held : Option ℕ) (hazard source : String) → Option ℕ → State → State × ℕ
put_held none hazard source v st = (st, 0)
put_held (some w) hazard source none st = (st, 0)
put_held (some w) hazard source (some v) st = (put_risk hazard source v st, 1)

-- The risk `v` is that of an observation, `none` where there is none.
unfoldable pub observe : (hazard source : String) → Option ℕ → State → State × ℕ
observe hazard source v st = put_held (lookup hazard st.hz) hazard source v st

abbrev pub is_cyclone : Hazard → Bool
is_cyclone Hazard.cyclone = true
is_cyclone h = false

abbrev pub is_flood : Hazard → Bool
is_flood Hazard.flood = true
is_flood h = false

abbrev pub is_given : {A : Type 0} → Option A → Bool
is_given none = false
is_given (some a) = true

abbrev pub weather_source : (flood_ok gauged : Bool) → Hazard → String
weather_source flood_ok gauged h =
    if is_flood h && (flood_ok && gauged) then "openmeteo+glofas" else "openmeteo"

-- The loop over the hazards that the weather decides, for the risks that the observations give.
unfoldable pub observe_weather :
    (flood_ok gauged : Bool) → (Hazard → Option ℕ) → List Hazard → State → State × ℕ
observe_weather flood_ok gauged risk [] st = (st, 0)
observe_weather flood_ok gauged risk (h ∷ hs) st =
    let v = if is_cyclone h && not st.coastal then none else risk h in
    let one = observe (key_of h) (weather_source flood_ok gauged h) v st in
    let rest = observe_weather flood_ok gauged risk hs one.0 in (rest.0, one.1 + rest.1)

abbrev pub weather_hazards : List Hazard
weather_hazards =
    Hazard.flood ∷ Hazard.landslide ∷ Hazard.heatwave ∷ Hazard.drought ∷ Hazard.wildfire
    ∷ Hazard.lightning ∷ Hazard.cyclone ∷ []

-- The functions of `Math`, and `Math.round` with its result as a whole number.
pub record Maths (Num : Type 0) : Type 0 where
  pub sin : Num → Num
  pub cos : Num → Num
  pub asin : Num → Num
  pub sqrt : Num → Num
  pub pi : Num
  pub nearest : Num → ℤ

module _ (F : Floats) (M : Maths F.Num) where
  -- `LIVEDATA.obs[id]`
  pub record Obs : Type 0 where
    pub rain24 : Option F.Num
    pub rain72 : Option F.Num
    pub rain7d : Option F.Num
    pub tmax : Option F.Num
    pub gust : Option F.Num
    pub cape : Option F.Num
    pub discharge_ratio : Option F.Num

  unfoldable pub clamp_score : F.Num → ℕ
  clamp_score v = within_scale (M.nearest v)

  abbrev pub river_of : F.Num → F.Num
  river_of ratio =
      F.least (greatest F (F.div (F.sub ratio (num F 1)) (F.lit 16 10)) (num F 0)) (num F 1)

  abbrev pub with_river : Option F.Num → F.Num → F.Num
  with_river none v = v
  with_river (some ratio) v = F.add (F.mul v (F.lit 72 100)) (F.mul (num F 46) (river_of ratio))

  unfoldable pub flood_risk : Obs → (rain24 : F.Num) → F.Num
  flood_risk o rain24 =
      let today = F.least (F.div rain24 (F.lit 2045 10)) (F.lit 125 100) in
      let soaked = F.least (F.div (or_else o.rain72 (num F 0)) (num F 300)) (num F 1) in
      with_river o.discharge_ratio (F.add (F.mul (num F 62) today) (F.mul (num F 26) soaked))

  -- A missing `rain24` counts as 0, as null does in a quotient.
  unfoldable pub landslide_risk : Obs → (rain72 : F.Num) → F.Num
  landslide_risk o rain72 =
      F.add
        (F.mul (num F 18) (F.least (F.div (or_else o.rain24 (num F 0)) (num F 100)) (F.lit 12 10)))
        (F.mul (num F 66) (F.least (F.div rain72 (num F 260)) (F.lit 12 10)))

  unfoldable pub wildfire_risk : Obs → (tmax rain7d : F.Num) → F.Num
  wildfire_risk o tmax rain7d =
      let dry = greatest F (num F 0) (F.sub (num F 1) (F.div rain7d (num F 26))) in
      let hot =
        greatest F (num F 0) (F.least (F.div (F.sub tmax (num F 26)) (num F 16)) (num F 1)) in
      let wind = F.least (F.div (or_else o.gust (num F 0)) (num F 45)) (num F 1) in
      let mixed =
        F.add (F.add (F.mul (F.lit 5 10) dry) (F.mul (F.lit 34 100) hot))
          (F.mul (F.lit 16 100) wind) in
      F.mul (F.mul (num F 100) mixed) dry

  abbrev pub score_of : (F.Num → F.Num) → Option F.Num → Option ℕ
  score_of f none = none
  score_of f (some a) = some (clamp_score (f a))

  abbrev pub score_of_both : (F.Num → F.Num → F.Num) → Option F.Num → Option F.Num → Option ℕ
  score_of_both f none b = none
  score_of_both f (some a) b = score_of (f a) b

  -- `obsRisk[h](o)`
  unfoldable pub obs_risk : Obs → Hazard → Option ℕ
  obs_risk o Hazard.flood = score_of (flood_risk o) o.rain24
  obs_risk o Hazard.landslide = score_of (landslide_risk o) o.rain72
  obs_risk o Hazard.heatwave = score_of (λ t. F.mul (F.sub t (num F 32)) (F.lit 72 10)) o.tmax
  obs_risk o Hazard.drought = score_of (λ r. F.sub (num F 92) (F.mul r (F.lit 26 10))) o.rain7d
  obs_risk o Hazard.wildfire = score_of_both (wildfire_risk o) o.tmax o.rain7d
  obs_risk o Hazard.lightning = score_of (λ c. F.div c (num F 34)) o.cape
  obs_risk o Hazard.cyclone = score_of (λ g. F.mul (F.sub g (num F 24)) (F.lit 19 10)) o.gust
  obs_risk o Hazard.earthquake = none

  -- A row of `LIVEDATA.quakes`, with its age in days.
  pub record Quake : Type 0 where
    pub mag : F.Num
    pub lat : F.Num
    pub lon : F.Num
    pub age_days : F.Num

  abbrev pub square : F.Num → F.Num
  square a = F.mul a a

  unfoldable pub haversine : (a1 o1 a2 o2 : F.Num) → F.Num
  haversine a1 o1 a2 o2 =
      let r = F.div M.pi (num F 180) in
      let d_a = F.mul (F.sub a2 a1) r in
      let d_o = F.mul (F.sub o2 o1) r in
      let h = F.add (square (M.sin (F.div d_a (num F 2)))) (
        F.mul (F.mul (M.cos (F.mul a1 r)) (M.cos (F.mul a2 r)))
          (square (M.sin (F.div d_o (num F 2))))) in
      F.mul (F.mul (num F 2) (num F 6371)) (M.asin (M.sqrt h))

  -- The loop of `quakeRiskFor` for a point.
  unfoldable pub best_quake : (lat lon : F.Num) → List Quake → (best : F.Num) → F.Num
  best_quake lat lon [] best = best
  best_quake lat lon (q ∷ qs) best =
      let d = haversine lat lon q.lat q.lon in
      let v =
        F.sub (F.sub (F.mul q.mag (num F 15)) (F.mul d (F.lit 45 1000)))
          (F.mul q.age_days (F.lit 35 10)) in
      best_quake lat lon qs (if F.lt (num F 700) d then best else if F.lt best v then v else best)

  unfoldable pub quake_risk_for : (lat lon : F.Num) → List Quake → Option ℕ
  quake_risk_for lat lon [] = none
  quake_risk_for lat lon (q ∷ qs) =
      let best = best_quake lat lon (q ∷ qs) (num F 0) in
      if F.lt (num F 0) best then some (clamp_score best) else none

  -- What `applyObservations` does to the risks of a state, and how many it touches.
  unfoldable pub apply_to_state :
      (weather_ok flood_ok quake_ok : Bool)
      → Obs
      → (lat lon : F.Num) → List Quake
      → State
      → State × ℕ
  apply_to_state weather_ok flood_ok quake_ok o lat lon quakes st =
      let weather =
        if weather_ok
        then observe_weather flood_ok (is_given o.discharge_ratio) (obs_risk o) weather_hazards st
        else (st, 0) in
      let quake =
        if quake_ok
        then observe "earthquake" "usgs" (quake_risk_for lat lon quakes) weather.0
        else (weather.0, 0) in
      (quake.0, weather.1 + quake.1)
