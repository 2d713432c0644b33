-- ===== src/States/Grid.antt =====
-- states.js `buildStateCells`: the cells that a state gets.

use aapda_sync.Base.{
  ℕ, zero, suc, ◌≤◌, Bool, true, not, ◌&&◌, Option, some, String, List, [], ◌∷◌, ◌≡◌, refl, ◌∙◌, ap,
  arith, map, length, any, All, str_eq,
}
use aapda_sync.Base.Fractions.{Fraction}
use aapda_sync.States.{Profile, Register}
use aapda_sync.States.Season.{Clock}
use aapda_sync.States.Profiles.{state_profile}
use aapda_sync.States.Profiles.Sound.{state_profile-is_sound}
use aapda_sync.States.Cells.{
  Cell, gid_of, score_of, probability_of, confidence_of, build_cell, build_cells, build_state_cells,
}

abbrev pub keys_of : List (String × ℕ) → List String
keys_of rows = map (λ (row : String × ℕ). row.0) rows

abbrev pub Scores : (lo hi : ℕ) → List (String × ℕ) → Type 0
Scores lo hi [] = Unit
Scores lo hi ((h, v) ∷ rows) = ((lo ≤ v) × (v ≤ hi)) × Scores lo hi rows

-- A cell has the hazards of the state, and figures that are in their scales.
abbrev pub IsScored : Profile → Cell → Type 0
IsScored p c =
    (keys_of c.risk ≡ keys_of p.hz)
    × Scores 0 100 c.risk
    × Scores 0 860 c.probability
    × Scores 35 93 c.confidence

abbrev pub distinct : List String → Bool
distinct [] = true
distinct (x ∷ xs) = not (any (λ y. str_eq x y) xs) && distinct xs

abbrev pub ids_of : List Cell → List String
ids_of cells = map (λ (c : Cell). c.id) cells

score_of-fst :
    (t : Clock) (w : Fraction) (k e s h r : ℕ) (rows : List (String × ℕ))
    → keys_of (map (score_of t w k e s h r) rows) ≡ keys_of rows
unfolding score_of
score_of-fst t w k e s h r [] = refl
score_of-fst t w k e s h r ((j, v) ∷ rows) = ap (λ ks. j ∷ ks) (score_of-fst t w k e s h r rows)

score_of-Scores :
    (t : Clock) (w : Fraction) (k e s h r : ℕ) (rows : List (String × ℕ))
    → Scores 0 100 (map (score_of t w k e s h r) rows)
unfolding score_of
score_of-Scores t w k e s h r [] = tt
score_of-Scores t w k e s h r ((j, v) ∷ rows) =
    ((omega arith, omega arith), score_of-Scores t w k e s h r rows)

probability-Scores :
    (rows : List (String × ℕ))
    → Scores 0 100 rows
    → Scores 0 860 (map (λ (r : String × ℕ). (r.0, probability_of r.1)) rows)
probability-Scores [] h = tt
probability-Scores ((j, v) ∷ rows) h =
    ((omega arith, omega (arith, h.0.1)), probability-Scores rows h.1)

confidence-Scores :
    (reg : Register) (riv : Option ℕ) (k : ℕ) (rows : List (String × ℕ))
    → Scores 35 93 (map (λ (r : String × ℕ). (r.0, confidence_of reg riv k r.0)) rows)
unfolding confidence_of
confidence-Scores reg riv k [] = tt
confidence-Scores reg riv k ((j, v) ∷ rows) =
    ((omega arith, omega arith), confidence-Scores reg riv k rows)

-- The ids of a state's zones.
abbrev gids : (count i : ℕ) → List String
gids zero i = []
gids (suc count) i = gid_of i ∷ gids count (suc i)

module _ (hypot : Fraction → Fraction → Fraction) (sid : String) (p : Profile) (t : Clock) where
  build_cell-IsScored : (name : String) (i : ℕ) → IsScored p (build_cell hypot sid p t name i)
  unfolding build_cell
  build_cell-IsScored name i = (
    score_of-fst t _ _ _ _ _ _ p.hz,
    score_of-Scores t _ _ _ _ _ _ p.hz,
    probability-Scores _ (score_of-Scores t _ _ _ _ _ _ p.hz),
    confidence-Scores p.reg _ _ _,
  )

  pub build_cells-IsScored :
      (names : List String) (i : ℕ) → All (IsScored p) (build_cells hypot sid p t names i)
  unfolding build_cells
  build_cells-IsScored [] i = tt
  build_cells-IsScored (name ∷ names) i =
      (build_cell-IsScored name i, build_cells-IsScored names (suc i))

  ids_of-build_cells :
      (names : List String) (i : ℕ)
      → ids_of (build_cells hypot sid p t names i) ≡ gids (length names) i
  unfolding build_cells build_cell
  ids_of-build_cells [] i = refl
  ids_of-build_cells (name ∷ names) i =
      ap (λ ids. gid_of i ∷ ids) (ids_of-build_cells names (suc i))

  pub length-build_cells :
      (names : List String) (i : ℕ) → length (build_cells hypot sid p t names i) ≡ length names
  unfolding build_cells
  length-build_cells [] i = refl
  length-build_cells (name ∷ names) i = ap suc (length-build_cells names (suc i))

-- Every state that has a profile gets 25 cells with 25 different ids. Each has exactly the hazards of
-- its state, with risks of at most 100, probabilities of at most 0.86 and confidences from 0.35 to
-- 0.93, whatever the season and the distances are.
pub build_state_cells-IsScored :
    (hypot : Fraction → Fraction → Fraction) (sid : String) (p : Profile) (t : Clock)
    → state_profile sid ≡ some p
    → let cells = build_state_cells hypot sid (state_profile sid) t in
      (length cells ≡ 25) × (distinct (ids_of cells) ≡ true) × All (IsScored p) cells
build_state_cells-IsScored hypot sid p t e =
    let sound = state_profile-is_sound sid p e in
    let full : length p.z ≡ 25 = ground arith in
    let ids = ids_of-build_cells hypot sid p t p.z 0 ∙ ap (λ n. gids n 0) full in
    rw e (
      length-build_cells hypot sid p t p.z 0 ∙ full,
      ap distinct ids,
      build_cells-IsScored hypot sid p t p.z 0,
    )
