-- ===== src/Sources/Applied/Gap.antt =====
-- livedata.js `applyObservations` and `applyToCells`: what a round of observations leaves of the distance
-- between a cell and its state.
use aapda_sync.Base.{
  ℕ, ◌+◌, ◌-◌, min, max, Bool, true, Option, none, some, String, List, ◌≡◌, refl, ◌∙◌, map, lookup,
  Unique, str_eq,
}
use aapda_sync.Base.Int.{pos}
use aapda_sync.Base.Floats.{Floats}
use aapda_sync.Sources.Observed.{State, Maths, Obs, Quake}
use aapda_sync.Sources.Cells.{Cell, apply_to_cell, apply_to_cell-moved}
use aapda_sync.Sources.Applied.{observed_state, cells_for}

module _ (F : Floats) (M : Maths F.Num) (name_of : String → String)
    (obs_of : String → Option (Obs F M)) (place_of : String → F.Num × F.Num)
    (quakes : List (Quake F M)) (focus : String) (weather_ok flood_ok quake_ok : Bool) (id : String)
    (o : Obs F M) (before : State) where
  -- The state after the observations.
  abbrev pub after : State
  after =
      (observed_state F M name_of obs_of place_of quakes focus weather_ok flood_ok quake_ok id o
        before).0

  -- A round of observations moves every cell of the state in focus with its state: where the state's risk
  -- of a hazard was `m` and is now `v`, and its live score is that `v`, the cell's risk moves by as much,
  -- held between 2 and 99; and its risk of a hazard that has no live score stays. Where the source of a
  -- hazard is stale, the live score can be an old one that is no more the state's risk: that case is not
  -- covered.
  pub cells_for-gap :
      (h k : String) (m v r : ℕ) (c : Cell) (cells : List Cell)
      → str_eq id focus ≡ true
      → Unique c.risk
      → lookup h c.risk ≡ some (pos r)
      → lookup h before.hz ≡ some m
      → lookup h after.hz ≡ some v
      → lookup h after.live ≡ lookup h after.hz
      → lookup k after.live ≡ none
      → (cells_for F M name_of obs_of place_of quakes focus weather_ok flood_ok quake_ok id before
            after cells
          ≡ map (apply_to_cell after.live before.hz) cells)
        × (lookup h (apply_to_cell after.live before.hz c).risk
            ≡ some (pos (max 2 (min 99 (v + r - m)))))
        × (lookup k (apply_to_cell after.live before.hz c).risk ≡ lookup k c.risk)
  cells_for-gap h k m v r c cells open_now u e was now same quiet =
      let (moved, kept) =
        apply_to_cell-moved after.live before.hz h k v m r c u e (same ∙ now) was quiet in
      (rw open_now refl, moved, kept)
