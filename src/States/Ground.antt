-- ===== src/States/Ground.antt =====
-- states.js TERRAIN, and how the ground of a cell changes its scores. Heights above the drainage are in
-- tenths.
use aapda_sync.Base.{ℕ, ◌+◌, ◌-◌, ◌*◌, ◌||◌, String, if◌then◌else◌, ltb, leb, str_eq}
use aapda_sync.Base.Fractions.{Fraction, frac}
use aapda_sync.States.{Terrain}

-- A row of TERRAIN: the height, the slope, the height above the drainage, in tenths, and the rain.
pub record Ground : Type 0 where
  pub e : ℕ × ℕ
  pub s : ℕ × ℕ
  pub h : ℕ × ℕ
  pub r : ℕ × ℕ

abbrev ground_of : (e0 e1 s0 s1 h0 h1 r0 r1 : ℕ) → Ground
ground_of e0 e1 s0 s1 h0 h1 r0 r1 = record {
  e = (e0, e1);
  s = (s0, s1);
  h = (h0, h1);
  r = (r0, r1);
}

abbrev pub terrain : Terrain → Ground
terrain Terrain.himalaya = ground_of 780 3900 16 48 20 780 90 235
terrain Terrain.hill = ground_of 280 1900 10 36 30 460 80 215
terrain Terrain.ghats = ground_of 120 1600 12 40 20 520 95 260
terrain Terrain.plain = ground_of 28 260 1 7 8 160 55 190
terrain Terrain.delta = ground_of 1 26 0 3 3 60 70 220
terrain Terrain.coastal = ground_of 2 90 1 8 5 120 65 205
terrain Terrain.plateau = ground_of 220 940 2 15 20 260 45 165
terrain Terrain.desert = ground_of 90 420 1 9 30 340 8 62
terrain Terrain.island = ground_of 2 140 2 22 4 180 70 230
terrain Terrain.urban = ground_of 170 280 1 5 10 140 50 175

abbrev pub pop_base : Terrain → ℕ
pop_base Terrain.urban = 260000
pop_base Terrain.plain = 96000
pop_base Terrain.delta = 74000
pop_base Terrain.coastal = 62000
pop_base Terrain.plateau = 54000
pop_base Terrain.ghats = 46000
pop_base Terrain.hill = 17000
pop_base Terrain.himalaya = 12000
pop_base Terrain.desert = 34000
pop_base Terrain.island = 7000

-- How a hazard's score depends on the ground of a cell.
unfoldable pub modifier : (hazard : String) (elev slope hand rain : ℕ) → Fraction
modifier hazard elev slope hand rain =
    if str_eq hazard "landslide"
    then frac (45 * 48 + 95 * slope) 4800
    else if str_eq hazard "flood"
    then frac
        (if leb hand 30 then 118 else if leb hand 80 then 100 else if leb hand 200 then 72 else 42)
        100
    else if str_eq hazard "heatwave" || str_eq hazard "drought"
    then frac (if ltb 1500 elev then 40 else if ltb 800 elev then 72 else 105) 100
    else if str_eq hazard "tsunami" || str_eq hazard "cyclone"
    then frac (if ltb elev 40 then 115 else if ltb elev 150 then 78 else 35) 100
    else if str_eq hazard "wildfire"
    then frac (60 * 260 + 80 * (260 - rain)) 26000
    else frac 1 1
