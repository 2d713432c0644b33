-- ===== src/States.antt =====
-- The states and their profiles: frontend/standalone/src/states.js, and `seedStates` and `loadState`
-- of data.js.
pub mod Profiles
pub mod Hash
pub mod Season
pub mod Seed
pub mod Ground
pub mod Cells
pub mod Headlines
pub mod Alerts
pub mod Registers
pub mod Load
pub mod Chamoli
pub mod Factors
pub mod Grid
pub mod Warned
pub mod Told
pub mod Opened
pub mod Seeded
mod Tests
use aapda_sync.Base.{ℕ, Bool, true, false, String, List}

pub data Terrain : Type 0 where
  himalaya hill ghats plain delta coastal plateau desert island urban : Terrain

pub data Register : Type 0 where
  sdma provisional : Register

-- A row of ST_PROFILE.
pub record Profile : Type 0 where
  pub n : String
  pub d : String
  pub pop : String
  pub cst : Bool
  pub terr : Terrain
  pub hz : List (String × ℕ)
  pub pri : String
  pub age : ℕ
  pub dis : String
  pub reg : Register
  pub scope : String
  pub note : String
  pub z : List String
