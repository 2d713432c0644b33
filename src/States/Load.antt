-- ===== src/States/Load.antt =====
-- data.js `loadState`, to where the ranking and the plan are computed. What the register of Chamoli
-- gives (UT_CELLS and the other tables) is an argument, which States/Chamoli fills.
use aapda_sync.Base.{
  ℕ, Bool, true, false, ◌&&◌, Option, none, some, String, List, map, any, lookup, if◌then◌else◌,
  leb, str_eq,
}
use aapda_sync.Base.Int.{ℤ, pos}
use aapda_sync.Base.Fractions.{Fraction}
use aapda_sync.Shelters
use aapda_sync.Shelters.{Shelter, mk_shelter}
use aapda_sync.States.{Profile}
use aapda_sync.States.Season.{Clock}
use aapda_sync.States.Cells.{Cell, build_state_cells}
use aapda_sync.States.Alerts.{Alert, build_state_alerts}
use aapda_sync.States.Registers.{
  Hospital, Road, Report, build_state_shelters, build_state_hospitals, build_state_roads,
  build_state_reports,
}

-- The operational data of one state.
pub record Loaded : Type 0 where
  pub cells : List Cell
  pub shelters : List Shelter
  pub hospitals : List Hospital
  pub alerts : List Alert
  pub roads : List Road
  pub reports : List Report

-- `S`, as far as `loadState` reads and writes it.
pub record Store : Type 0 where
  pub focus : String
  pub hazard : String
  pub loaded : Loaded

abbrev pub known_risk : Option ℕ → Option ℤ
known_risk none = none
known_risk (some v) = some (pos v)

-- What `mkShelters` reads of a cell, for the hazard in view.
abbrev pub in_view : (hazard : String) → Cell → Shelters.Cell
in_view hazard c = record {
  cell_id = c.cell_id;
  id = c.id;
  col = c.col;
  row = c.row;
  risk = known_risk (lookup hazard c.risk);
}

-- `mkShelters(rows, null)` for the cells and the hazard in the store.
abbrev pub mk_shelters : (hazard : String) → List Cell → List Shelters.Row → List Shelter
mk_shelters hazard cells rows = map (mk_shelter (map (in_view hazard) cells)) rows

abbrev pub is_given {ℓ} : {A : Type ℓ} → Option A → Bool
is_given none = false
is_given (some a) = true

-- `S.cells.some(c => (c.risk[S.hazard] ?? -1) >= 0)`
unfoldable pub has_hazard : (hazard : String) → List Cell → Bool
has_hazard hazard cells = any (λ (c : Cell). is_given (lookup hazard c.risk)) cells

-- `utActive`, for the score of flood that Uttarakhand has in the store.
abbrev pub ut_active : (id : String) → (ut_flood : Option ℕ) → Bool
ut_active id none = str_eq id "ut"
ut_active id (some v) = str_eq id "ut" && leb 60 v

-- `S.hazard = stateProfile(id).pri`, where no cell has the hazard in view.
abbrev pub with_hazard : Profile → Store → Store
with_hazard p s = if has_hazard s.hazard s.loaded.cells then s else record s { hazard = p.pri }

module _ (hypot : Fraction → Fraction → Fraction) (upper : String → String)
    (authored : Loaded) where
  abbrev pub registers :
      (id : String) → Profile → (hazard : String) → List Cell → List Alert → Loaded
  registers id p hazard cells alerts = record {
    cells = cells;
    shelters = mk_shelters hazard cells (build_state_shelters upper id p cells);
    hospitals = build_state_hospitals upper id p cells;
    alerts = alerts;
    roads = build_state_roads upper id p cells;
    reports = build_state_reports upper id p cells;
  }

  abbrev pub loaded_with :
      (id : String) → Profile → List Cell → Option (List Alert) → Store → Option Store
  loaded_with id p cells none s = none
  loaded_with id p cells (some alerts) s = some (
      with_hazard p
        (record { focus = id; hazard = s.hazard; loaded = registers id p s.hazard cells alerts }))

  -- `loadState(id)` for the profile that is found; `live` are the state's scores, and `none` is a
  -- hazard without an authority for its alerts.
  unfoldable pub load_profile :
      (id : String)
      → Profile
      → Clock
      → (live : List (String × ℕ)) → (ut_flood : Option ℕ) → Store
      → Option Store
  load_profile id p t live ut_flood s =
      if ut_active id ut_flood
      then some (with_hazard p (record { focus = id; hazard = s.hazard; loaded = authored }))
      else let cells = build_state_cells hypot id (some p) t in
        loaded_with id p cells (build_state_alerts upper id p cells live) s

  -- `loadState(id)`; it returns whether there is such a state.
  abbrev pub load_state :
      (id : String)
      → Option Profile
      → Clock
      → (live : List (String × ℕ)) → (ut_flood : Option ℕ) → Store
      → Option (Store × Bool)
  load_state id none t live ut_flood s = some (s, false)
  load_state id (some p) t live ut_flood s = elim (load_profile id p t live ut_flood s) [
    | none ↦ none
    | some s' ↦ some (s', true)
  ]
