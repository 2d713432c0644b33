-- ===== src/States/Cells.antt =====
-- states.js `buildStateCells`: the grid of a state. Heights above the drainage are in tenths, the
-- gauge of a river, the confidence and the moisture of the soil in hundredths, probabilities in
-- thousandths. Math.hypot is a parameter; the text `short` is left out. Where the
-- source computes with doubles, fractions are computed with here.
use Prim.Native.Nat.{◌/◌, ◌%◌}
use aapda_sync.Base.{
  ℕ, zero, suc, ◌+◌, ◌-◌, ◌*◌, min, max, Option, none, some, String, List, [], ◌∷◌, map, get_elem?,
  or_else, if◌then◌else◌, ltb, leb, str_eq, joined,
}
use aapda_sync.Base.Fractions.{Fraction, frac, times, plus, rounded, distance, lerp}
use aapda_sync.States.{Profile, Register}
use aapda_sync.States.Ground.{terrain, pop_base, modifier}
use aapda_sync.States.Hash.{zhash}
use aapda_sync.States.Season.{Clock, clock_factor}

-- An entry of `hist`, with its age in minutes.
pub record Past : Type 0 where
  pub age : ℕ
  pub scores : List (String × ℕ)

pub record Cell : Type 0 where
  pub id : String
  pub cell_id : String
  pub col : ℕ
  pub row : ℕ
  pub name : String
  pub risk : List (String × ℕ)
  pub probability : List (String × ℕ)
  pub confidence : List (String × ℕ)
  pub pop : ℕ
  pub elevation_m : ℕ
  pub slope_deg : ℕ
  pub hand_m : ℕ
  pub rainfall_24h : Option ℕ
  pub rainfall_72h : Option ℕ
  pub river_ratio : Option ℕ
  pub soil_moisture : Option ℕ
  pub degraded : List String
  pub hist : List Past

-- `'ABCDE'[col] + (row + 1)`, for the 25 names of a state.
abbrev pub letters : List String
letters = "A" ∷ "B" ∷ "C" ∷ "D" ∷ "E" ∷ []

abbrev pub digits : List String
digits = "1" ∷ "2" ∷ "3" ∷ "4" ∷ "5" ∷ []

abbrev pub gid_of : (i : ℕ) → String
gid_of i = joined (
    or_else (get_elem? letters (i % 5)) "undefined"
    ∷ or_else (get_elem? digits (i / 5)) "undefined"
    ∷ [])

-- `h3For(sid, i)`: five hexadecimal digits of the hash, and two of the number.
abbrev pub hex : ℕ → String
hex n =
    or_else
      (get_elem?
        ("0" ∷ "1" ∷ "2" ∷ "3" ∷ "4" ∷ "5" ∷ "6" ∷ "7" ∷ "8" ∷ "9" ∷ "a" ∷ "b" ∷ "c" ∷ "d" ∷ "e"
          ∷ "f" ∷ [])
        (n % 16))
      ""

abbrev pub hex_digits : (count : ℕ) → ℕ → String
hex_digits zero n = ""
hex_digits (suc count) n = joined (hex_digits count (n / 16) ∷ hex n ∷ [])

unfoldable pub h3_for : (sid : String) (i : ℕ) → String
h3_for sid i =
    joined
      ("87" ∷ hex_digits 5 (zhash sid * 1048575 / 100000) ∷ hex_digits 2 (i + 16) ∷ "fffffff" ∷ [])

-- `riv == null && h === 'flood' ? 0.14 : 0`
abbrev pub no_gauge : Option ℕ → String → ℕ
no_gauge none h = if str_eq h "flood" then 14 else 0
no_gauge (some ratio) h = 0

abbrev pub trust : Register → ℕ
trust Register.sdma = 86
trust Register.provisional = 74

unfoldable pub confidence_of : Register → Option ℕ → (k : ℕ) → String → ℕ
confidence_of reg riv k h =
    max 35 (min 93 (rounded 1 (frac ((trust reg - no_gauge riv h) * 100000 - 8 * k) 100000)))

abbrev pub without_gauge : Option ℕ → List String
without_gauge none = "cwc" ∷ []
without_gauge (some ratio) = []

abbrev pub past_score : (ago : ℕ) → ℕ → ℕ
past_score ago v = v - ago * (if ltb 60 v then 15 else 7)

abbrev pub past_of : List (String × ℕ) → ℕ → Past
past_of risk ago = record {
  age = ago * 45;
  scores = map (λ (row : String × ℕ). (row.0, past_score ago row.1)) risk;
}

-- `1 + zhash(s) * 3`
abbrev pub centre : String → Fraction
centre s = frac (100000 + 3 * zhash s) 100000

-- `risk[h]`, from the profile's score.
unfoldable pub score_of :
    Clock → (w : Fraction) (k elev slope hand rain : ℕ) → String × ℕ → String × ℕ
score_of t w k elev slope hand rain (h, base) =
    let x = times (times (frac base 1) (modifier h elev slope hand rain)) (
      times
        (times (plus (frac 55 100) (times w (frac 55 100))) (frac (88 * 100000 + 26 * k) 10000000))
        (clock_factor h t)) in
    (h, min 100 (rounded 1 x))

-- `+(v / 100 * 0.86).toFixed(3)`
abbrev pub probability_of : ℕ → ℕ
probability_of v = rounded 1000 (frac (v * 86) 10000)

module _ (hypot : Fraction → Fraction → Fraction) where
  unfoldable pub event_weight : (col row : ℕ) (cx cy : Fraction) → Fraction
  event_weight col row cx cy =
      let d =
        hypot (times (distance (frac col 1) cx) (frac 10 26))
          (times (distance (frac row 1) cy) (frac 10 26)) in
      frac (100 * d.den - 62 * d.num) (100 * d.den)

  unfoldable pub build_cell : (sid : String) → Profile → Clock → (name : String) (i : ℕ) → Cell
  build_cell sid p t name i =
      let col = i % 5 in
      let row = i / 5 in
      let gid = gid_of i in
      let k = zhash (joined (sid ∷ gid ∷ name ∷ [])) in
      let k2 = zhash (joined (name ∷ gid ∷ [])) in
      let w =
        event_weight col row (centre (joined (sid ∷ "cx" ∷ [])))
          (centre (joined (sid ∷ "cy" ∷ []))) in
      let ground = terrain p.terr in
      let elev = rounded 1 (lerp ground.e.0 ground.e.1 (frac k 100000)) in
      let slope = rounded 1 (lerp ground.s.0 ground.s.1 (frac (k + k2) 200000)) in
      let hand = rounded 1 (lerp ground.h.0 ground.h.1 (frac k2 100000)) in
      let rain =
        rounded 1
          (lerp ground.r.0 ground.r.1 (plus (times w (frac 7 10)) (frac (3 * k) 1000000))) in
      let gauge = plus (frac 72 100) (plus (times w (frac 42 100)) (frac k2 1000000)) in
      let riv = if leb hand 80 then some (rounded 100 gauge) else none in
      let risk = map (score_of t w k elev slope hand rain) p.hz in
      record {
        id = gid;
        cell_id = h3_for sid i;
        col = col;
        row = row;
        name = name;
        risk = risk;
        probability = map (λ (r : String × ℕ). (r.0, probability_of r.1)) risk;
        confidence = map (λ (r : String × ℕ). (r.0, confidence_of p.reg riv k r.0)) risk;
        pop = rounded (pop_base p.terr) (
            times (frac (28 * 100000 + 190 * k) 10000000) (plus (frac 7 10) (times w (frac 7 10))));
        elevation_m = elev;
        slope_deg = slope;
        hand_m = hand;
        rainfall_24h = some rain;
        rainfall_72h = some (rounded 1 (frac (rain * 23) 10));
        river_ratio = riv;
        soil_moisture = some (rounded 100 (frac (180 + rain) 900));
        degraded = without_gauge riv;
        hist = map (past_of risk) (3 ∷ 2 ∷ 1 ∷ 0 ∷ []);
      }

  -- `P.z.map(...)`, from the index on.
  unfoldable pub build_cells : (sid : String) → Profile → Clock → List String → (i : ℕ) → List Cell
  build_cells sid p t [] i = []
  build_cells sid p t (name ∷ names) i =
      build_cell sid p t name i ∷ build_cells sid p t names (suc i)

  -- `buildStateCells(sid)`, for the profile that is found.
  abbrev pub build_state_cells : (sid : String) → Option Profile → Clock → List Cell
  build_state_cells sid none t = []
  build_state_cells sid (some p) t = build_cells sid p t p.z 0
