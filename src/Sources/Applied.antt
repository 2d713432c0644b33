-- ===== src/Sources/Applied.antt =====
-- livedata.js `applyObservations`: its guards, the loop over the states, their labels, and the cells of
-- the state in focus. The observations of a state, its place and the names of hazards are arguments.
pub mod Whole
pub mod Gap
use aapda_sync.Base.{
  ℕ, zero, suc, ◌+◌, Bool, true, false, not, ◌&&◌, ◌||◌, Option, none, some, ◌>>=◌, String, List,
  [], ◌∷◌, if◌then◌else◌, str_eq,
}
use aapda_sync.Base.Floats.{Floats}
use aapda_sync.States.Seed.{by_score, joined_by_plus, named, situation}
use aapda_sync.Sources.{LiveData, Source, source_fresh}
use aapda_sync.Sources.Observed.{State, Maths, Obs, Quake, apply_to_state}
use aapda_sync.Sources.Cells.{Cell, apply_to_cells}

-- `S.states[id]`, with its label and its main hazard.
pub record Row : Type 0 where
  pub state : State
  pub dis : String
  pub primary : String

-- `S`, as far as `applyObservations` reads and writes it.
pub record Store : Type 0 where
  pub focus : String
  pub states : List (String × Row)
  pub cells : List Cell

-- `st.dis` and `st.primary`, with the hazards from the highest on; `none` where there is no hazard and
-- the code throws.
abbrev pub labelled : (name_of : String → String) → State → List (String × ℕ) → Option Row
labelled name_of st [] = none
labelled name_of st (first ∷ rest) = some (record {
  state = st;
  dis = situation name_of (joined_by_plus name_of (named name_of (first ∷ rest))) first;
  primary = first.0;
})

module _ (F : Floats) (M : Maths F.Num) (name_of : String → String)
    (obs_of : String → Option (Obs F M)) (place_of : String → F.Num × F.Num)
    (quakes : List (Quake F M)) (focus : String) (weather_ok flood_ok quake_ok : Bool) where
  abbrev pub observed_state : (id : String) → Obs F M → State → State × ℕ
  observed_state id o st =
      apply_to_state F M weather_ok flood_ok quake_ok o (place_of id).0 (place_of id).1 quakes st

  abbrev pub cells_for : (id : String) → (before after : State) → List Cell → List Cell
  cells_for id before after cells =
      if str_eq id focus then apply_to_cells after.live before.hz cells else cells

  -- One round of the loop, for the observations of the state, if there are any: the state, the cells and
  -- how many risks were touched.
  unfoldable pub visit :
      (id : String) → Option (Obs F M) → Row → List Cell → Option (Row × List Cell × ℕ)
  visit id none row cells = some (row, cells, 0)
  visit id (some o) row cells = do
    labelled_row ←
        labelled name_of (observed_state id o row.state).0
          (by_score (observed_state id o row.state).0.hz)
    some (
      labelled_row,
      cells_for id row.state (observed_state id o row.state).0 cells,
      (observed_state id o row.state).1,
    )

  unfoldable pub visit_all :
      List (String × Row) → List Cell → Option (List (String × Row) × List Cell × ℕ)
  visit_all [] cells = some ([], cells, 0)
  visit_all ((id, row) ∷ rows) cells = do
    (row', cells', n) ← visit id (obs_of id) row cells
    (rows', cells'', m) ← visit_all rows cells'
    some ((id, row') ∷ rows', cells'', n + m)

  abbrev pub stored : String → Option (List (String × Row) × List Cell × ℕ) → Option (Store × ℕ)
  stored focus none = none
  stored focus (some (rows, cells, n)) =
      some (record { focus = focus; states = rows; cells = cells }, n)

-- `applyObservations()`, with how many risks it touched.
unfoldable pub apply_observations :
    (F : Floats) (M : Maths F.Num) (name_of : String → String) (obs_of : String → Option (Obs F M))
    (place_of : String → F.Num × F.Num) (quakes : List (Quake F M)) (now : ℕ)
    → LiveData
    → Store
    → Option (Store × ℕ)
apply_observations F M name_of obs_of place_of quakes now d s =
    let weather_ok = source_fresh now Source.weather d in
    let flood_ok = source_fresh now Source.flood d in
    let quake_ok = source_fresh now Source.quake d in
    if not d.ever_connected || (not weather_ok && not quake_ok)
    then some (s, 0)
    else stored F M name_of obs_of place_of quakes s.focus weather_ok flood_ok quake_ok s.focus (
        visit_all F M name_of obs_of place_of quakes s.focus weather_ok flood_ok quake_ok s.states
          s.cells)
