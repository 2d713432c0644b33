-- ===== src/States/Factors.antt =====
-- states.js `seasonOf` and `diurnalOf`: how far a factor goes.
use aapda_sync.Base.{ℕ, ◌*◌, ◌≤◌, ◌<◌, String, arith}
use aapda_sync.Base.Fractions.{Fraction}
use aapda_sync.States.Season.{Clock, season_of, diurnal_of}

-- A fraction from `lo` to `hi` hundredths.
abbrev pub Within : (lo hi : ℕ) → Fraction → Type 0
Within lo hi x = (0 < x.den) × (lo * x.den ≤ 100 * x.num) × (100 * x.num ≤ hi * x.den)

-- The factor of the season lies between 0.30 and 1.35 and that of the hour between 0.94 and 1.20, for
-- every hazard and at every time.
pub season_of-Within :
    (hazard : String) (t : Clock)
    → Within 30 135 (season_of hazard t) × Within 94 120 (diurnal_of hazard t)
unfolding season_of diurnal_of
season_of-Within hazard t = ground arith
