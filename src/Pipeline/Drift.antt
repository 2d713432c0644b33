-- ===== src/Pipeline/Drift.antt =====
-- boot.js, `driftCells`: what a drift keeps.
use aapda_sync.Base.{
  ℕ, ◌≤◌, Bool, Option, none, some, String, List, [], ◌∷◌, ◌++◌, length, length-append, length-drop,
  ◌≡◌, refl, ap, arith,
}
use aapda_sync.Base.Int.{ℤ, pos, negsuc}
use aapda_sync.Pipeline.{Cell, clamp, drift_risk, drift_risks, push_reading, snapshot, drift_cell}

-- A risk with data lies between 2 and 99.
abbrev pub InScale : ℤ → Type 0
InScale (pos v) = (2 ≤ v) × (v ≤ 99)
InScale (negsuc v) = Unit

abbrev pub AllInScale : List (String × ℤ) → Type 0
AllInScale [] = Unit
AllInScale ((hz, v) ∷ rest) = InScale v × AllInScale rest

abbrev pub AnchorInScale : Option ℤ → Type 0
AnchorInScale none = Unit
AnchorInScale (some a) = InScale a

clamp_bounds : (v : ℤ) (lo hi : ℕ) → lo ≤ hi → (lo ≤ clamp v lo hi) × (clamp v lo hi ≤ hi)
unfolding clamp
clamp_bounds (pos v) lo hi h = (omega arith, omega arith)
clamp_bounds (negsuc v) lo hi h = (omega arith, h)

drift_risk-InScale :
    (anchor : Option ℤ) (next v : ℤ)
    → AnchorInScale anchor
    → InScale v
    → InScale (drift_risk anchor next v)
unfolding drift_risk
drift_risk-InScale anchor next (negsuc v) a h = tt
drift_risk-InScale (some a) next (pos v) k h = k
drift_risk-InScale none next (pos v) k h = clamp_bounds next 2 99 (omega arith)

drift_risks-AllInScale :
    (anchor : String → Option ℤ) (next : String → ℤ) (risks : List (String × ℤ))
    → ((hz : String) → AnchorInScale (anchor hz))
    → AllInScale risks
    → AllInScale (drift_risks anchor next risks)
unfolding drift_risks
drift_risks-AllInScale anchor next [] k h = tt
drift_risks-AllInScale anchor next ((hz, v) ∷ rest) k h = (
  drift_risk-InScale (anchor hz) (next hz) v (k hz) h.0,
  drift_risks-AllInScale anchor next rest k h.1,
)

abbrev pub hazards : List (String × ℤ) → List String
hazards [] = []
hazards ((hz, v) ∷ rest) = hz ∷ hazards rest

hazards-drift_risks :
    (anchor : String → Option ℤ) (next : String → ℤ) (risks : List (String × ℤ))
    → hazards (drift_risks anchor next risks) ≡ hazards risks
unfolding drift_risks
hazards-drift_risks anchor next [] = refl
hazards-drift_risks anchor next ((hz, v) ∷ rest) = ap (hz ∷◌) (hazards-drift_risks anchor next rest)

length-push_reading :
    (snap : List (String × ℕ)) (hist : List (List (String × ℕ)))
    → length hist ≤ 4
    → length (push_reading snap hist) ≤ 4
unfolding push_reading
length-push_reading snap hist h =
    ground (arith, length-append hist (snap ∷ []), length-drop 1 (hist ++ snap ∷ []))

-- Whatever the random numbers are: a cell has the same hazards after a drift, each risk that has
-- data stays between 2 and 99 where the observed values do, and at most four readings are kept.
pub drift_cell-InScale :
    (full : Bool) (anchor : String → Option ℤ) (next : String → ℤ) (observed_rain : Bool)
    (next_rain : ℤ) (cell : Cell)
    → ((hz : String) → AnchorInScale (anchor hz))
    → AllInScale cell.risk
    → length cell.hist ≤ 4
    → AllInScale (drift_cell full anchor next observed_rain next_rain cell).risk
      × (hazards (drift_cell full anchor next observed_rain next_rain cell).risk
          ≡ hazards cell.risk)
      × (length (drift_cell full anchor next observed_rain next_rain cell).hist ≤ 4)
unfolding drift_cell
drift_cell-InScale full anchor next observed_rain next_rain cell k h short = (
  drift_risks-AllInScale anchor next cell.risk k h,
  hazards-drift_risks anchor next cell.risk,
  ground
      (arith, length-push_reading (snapshot (drift_risks anchor next cell.risk)) cell.hist short),
)
