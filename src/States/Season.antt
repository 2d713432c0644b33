-- ===== src/States/Season.antt =====
-- states.js `seasonOf`, `diurnalOf`, `clockFactor` and `seasonLabel`. The clock is an argument;
-- months, hours and widths are in tenths, and a factor is a fraction.
use aapda_sync.Base.{ℕ, ◌+◌, ◌-◌, ◌*◌, ◌&&◌, String, if◌then◌else◌, ltb, leb, str_eq}
use aapda_sync.Base.Fractions.{Fraction, frac, times, greater}

-- What `istNow` returns and the factors read.
pub record Clock : Type 0 where
  pub month : ℕ
  pub hour : ℕ

abbrev pub apart : ℕ → ℕ → ℕ
apart a b = (a - b) + (b - a)

-- The distance of two months, round the year.
abbrev pub months_apart : (m peak : ℕ) → ℕ
months_apart m peak = let d = apart (10 * m) peak in if ltb 60 d then 120 - d else d

-- `lo + (hi - lo) * Math.max(0, 1 - (d / width) ** 2)`, with `lo` and `hi` in hundredths.
abbrev pub bell : (d width lo hi : ℕ) → Fraction
bell d width lo hi =
    frac (lo * (width * width) + (hi - lo) * (width * width - d * d)) (100 * (width * width))

abbrev pub band : (m peak width lo hi : ℕ) → Fraction
band m peak width lo hi = bell (months_apart m peak) width lo hi

unfoldable pub season_of : (hazard : String) → Clock → Fraction
season_of hazard t =
    if str_eq hazard "flood"
    then band t.month 75 32 40 130
    else if str_eq hazard "landslide"
    then band t.month 75 30 38 132
    else if str_eq hazard "lightning"
    then band t.month 60 34 45 120
    else if str_eq hazard "cyclone"
    then greater (band t.month 110 22 35 135) (band t.month 55 16 35 105)
    else if str_eq hazard "heatwave"
    then band t.month 50 24 30 135
    else if str_eq hazard "drought"
    then band t.month 40 36 55 125
    else if str_eq hazard "wildfire"
    then band t.month 35 22 35 130
    else frac 1 1

-- `1 + 0.2 * Math.max(0, 1 - (Math.abs(h - at) / width) ** 2)`
abbrev pub peak : (h at width : ℕ) → Fraction
peak h at width = bell (apart h at) width 100 120

unfoldable pub diurnal_of : (hazard : String) → Clock → Fraction
diurnal_of hazard t =
    if str_eq hazard "lightning"
    then peak t.hour 16 6
    else if str_eq hazard "heatwave"
    then peak t.hour 15 6
    else if str_eq hazard "wildfire"
    then peak t.hour 14 7
    else if str_eq hazard "flood"
    then bell (apart t.hour 18) 9 94 106
    else frac 1 1

unfoldable pub clock_factor : (hazard : String) → Clock → Fraction
clock_factor hazard t = times (season_of hazard t) (diurnal_of hazard t)

unfoldable pub season_label : Clock → String × String
season_label t =
    if leb 6 t.month && leb t.month 9
    then ("Southwest monsoon", "Flood and landslide risk is at its seasonal peak.")
    else if leb 10 t.month && leb t.month 12
    then (
      "Post-monsoon", "Cyclone season on the east coast; the northeast monsoon is over Tamil Nadu.",
    )
    else if leb 3 t.month && leb t.month 5
    then (
      "Pre-monsoon",
      "Heat builds, forest-fire season is open, and pre-monsoon thunderstorms are frequent.",
    )
    else (
      "Winter", "The quiet season for most hazards. Cold wave, fog and residual drought dominate.",
    )
