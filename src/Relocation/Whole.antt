-- ===== src/Relocation/Whole.antt =====
-- data.js, `computeRoutes`: the whole plan. Nobody is lost, and no shelter is filled twice.
use aapda_sync.Base.{
  ℕ, zero, suc, ◌+◌, ◌≤◌, Option, none, some, String, List, [], ◌∷◌, if◌then◌else◌, str_eq_iff,
  take, get_elem?, insert, All, ◌≡◌, ◌≢◌, refl, ap, or_else, arith,
}
use mathlib.Core.Path.{subst}
use aapda_sync.Base.Floats.{Floats}
use aapda_sync.Ranking.{Zone}
use aapda_sync.Shelters.{Cell}
use aapda_sync.Relocation.{Places, free, Site, Road}
use aapda_sync.Relocation.Zones.{
  place_or_skip, place_zones, cell_of, capacity_of, all_places, compute_routes,
}
use aapda_sync.Relocation.Reserve.{free-insert, people_of, placed}
use aapda_sync.Relocation.Plan.{people_of-append, placed-append, place_zone-allots}

module _ (F : Floats) where
  -- The people to be moved from a zone that the grid has a cell for.
  abbrev pub moved_from : Zone → Option Cell → ℕ
  moved_from z none = 0
  moved_from z (some cell) = z.people_to_move

  abbrev pub to_be_moved : List Cell → List Zone → ℕ
  to_be_moved cells [] = 0
  to_be_moved cells (z ∷ zs) = moved_from z (cell_of F cells z) + to_be_moved cells zs

  place_or_skip-total :
      (sites : List (Site F)) (roads : List Road) (z : Zone) (cell : Option Cell)
      (remaining : Places)
      → (people_of F (place_or_skip F sites roads z cell remaining).0 ≡ moved_from z cell)
        × ((id : String)
            → placed F id (place_or_skip F sites roads z cell remaining).0
                + free id (place_or_skip F sites roads z cell remaining).1
              ≡ free id remaining)
  unfolding place_or_skip
  place_or_skip-total sites roads z none remaining = (refl, λ id. omega arith)
  place_or_skip-total sites roads z (some cell) remaining = (
    (place_zone-allots F sites roads z cell remaining "").0,
    λ id. (place_zone-allots F sites roads z cell remaining id).3,
  )

  place_zones-total :
      (sites : List (Site F)) (roads : List Road) (cells : List Cell) (zs : List Zone)
      (remaining : Places)
      → (people_of F (place_zones F sites roads cells zs remaining).0 ≡ to_be_moved cells zs)
        × ((id : String)
            → placed F id (place_zones F sites roads cells zs remaining).0
                + free id (place_zones F sites roads cells zs remaining).1
              ≡ free id remaining)
  unfolding place_zones
  place_zones-total sites roads cells [] remaining = (refl, λ id. omega arith)
  place_zones-total sites roads cells (z ∷ zs) remaining =
      let first = place_or_skip F sites roads z (cell_of F cells z) remaining in
      let rest = place_zones F sites roads cells zs first.1 in
      let h = place_or_skip-total sites roads z (cell_of F cells z) remaining in
      let k = place_zones-total sites roads cells zs first.1 in
      (
        omega (arith, people_of-append F first.0 rest.0, h.0, k.0),
        λ id. omega (arith, placed-append F id first.0 rest.0, h.1 id, k.1 id),
      )

  -- The shelters' ids are all different.
  abbrev pub IsDistinct : List (Site F) → Type 0
  IsDistinct [] = Unit
  IsDistinct (t ∷ ts) =
      All (λ (u : Site F). u.shelter.shelter_id ≢ t.shelter.shelter_id) ts × IsDistinct ts

  all_places-other :
      (id : String) (ts : List (Site F)) (m : Places)
      → All (λ (u : Site F). u.shelter.shelter_id ≢ id) ts
      → free id (all_places F ts m) ≡ free id m
  unfolding all_places
  all_places-other id [] m h = refl
  all_places-other id (t ∷ ts) m h = ground (
    arith,
    all_places-other id ts (insert t.shelter.shelter_id (capacity_of F t.shelter) m) h.1,
    free-insert t.shelter.shelter_id id (capacity_of F t.shelter) m,
    str_eq_iff t.shelter.shelter_id id,
    h.0,
  )

  -- A shelter begins with its effective capacity, or with none if it is not operational.
  all_places-free :
      (ts : List (Site F)) (m : Places) (k : ℕ) (t : Site F)
      → IsDistinct ts
      → get_elem? ts k ≡ some t
      → free t.shelter.shelter_id (all_places F ts m) ≡ capacity_of F t.shelter
  unfolding all_places
  all_places-free [] m k t d h = absurd (ground arith)
  all_places-free (u ∷ ts) m zero t d h =
      subst
        (λ (x : Site F).
          free x.shelter.shelter_id (all_places F (u ∷ ts) m) ≡ capacity_of F x.shelter)
        (ap (λ o. or_else o u) h)
        (ground (
          arith,
          all_places-other u.shelter.shelter_id ts
              (insert u.shelter.shelter_id (capacity_of F u.shelter) m) d.0,
          free-insert u.shelter.shelter_id u.shelter.shelter_id (capacity_of F u.shelter) m,
          str_eq_iff u.shelter.shelter_id u.shelter.shelter_id,
        ))
  all_places-free (u ∷ ts) m (suc k) t d h =
      all_places-free ts (insert u.shelter.shelter_id (capacity_of F u.shelter) m) k t d.1 h

  -- The plan's routes carry exactly the people to be moved from the first fourteen zones that have
  -- a cell.
  pub compute_routes-total :
      (sites : List (Site F)) (roads : List Road) (cells : List Cell) (priorities : List Zone)
      → people_of F (compute_routes F sites roads cells priorities)
        ≡ to_be_moved cells (take 14 priorities)
  unfolding compute_routes
  compute_routes-total sites roads cells priorities =
      (place_zones-total sites roads cells (take 14 priorities) (all_places F sites [])).0

  -- Where the shelters' ids differ, the plan's routes to a shelter carry no more people than its
  -- effective capacity, and nobody if it is not operational.
  pub compute_routes-capacity :
      (sites : List (Site F)) (roads : List Road) (cells : List Cell) (priorities : List Zone)
      (k : ℕ) (t : Site F)
      → IsDistinct sites
      → get_elem? sites k ≡ some t
      → placed F t.shelter.shelter_id (compute_routes F sites roads cells priorities)
        ≤ (if t.shelter.operational then t.shelter.effective_capacity else 0)
  unfolding compute_routes capacity_of
  compute_routes-capacity sites roads cells priorities k t d h =
      let total =
        place_zones-total sites roads cells (take 14 priorities) (all_places F sites []) in
      omega (arith, total.1 t.shelter.shelter_id, all_places-free sites [] k t d h)
