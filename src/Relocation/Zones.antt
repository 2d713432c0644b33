-- ===== src/Relocation/Zones.antt =====
-- data.js, `computeRoutes`: the loop over the zones, and the places it begins with.
use aapda_sync.Base.{
  ℕ, Option, none, some, List, [], ◌∷◌, ◌++◌, if◌then◌else◌, ltb, str_eq, find, take, insert,
}
use aapda_sync.Base.Floats.{Floats}
use aapda_sync.Ranking.{Zone}
use aapda_sync.Shelters.{Cell, Shelter}
use aapda_sync.Relocation.{Site, Road, Places, Route, allot, ranked, unassigned}

module _ (F : Floats) where
  -- One round of the loop over the zones.
  unfoldable pub place_zone :
      List (Site F) → List Road → Zone → Cell → Places → List (Route F) × Places
  place_zone sites roads z cell remaining =
      let out = allot F z (ranked F sites roads remaining z cell) z.people_to_move 0 remaining in
      (
        out.routes ++ (if ltb 0 out.to_place then unassigned F z out.to_place ∷ [] else []),
        out.remaining,
      )

  -- `S.cells.find(c => c.id === z.id)`
  abbrev pub cell_of : List Cell → Zone → Option Cell
  cell_of cells z = find (λ (c : Cell). str_eq c.id z.id) cells

  -- A zone without a cell is passed over.
  unfoldable pub place_or_skip :
      List (Site F) → List Road → Zone → Option Cell → Places → List (Route F) × Places
  place_or_skip sites roads z none remaining = ([], remaining)
  place_or_skip sites roads z (some cell) remaining = place_zone sites roads z cell remaining

  unfoldable pub place_zones :
      List (Site F) → List Road → List Cell → List Zone → Places → List (Route F) × Places
  place_zones sites roads cells [] remaining = ([], remaining)
  place_zones sites roads cells (z ∷ zs) remaining =
      let first = place_or_skip sites roads z (cell_of cells z) remaining in
      let rest = place_zones sites roads cells zs first.1 in (first.0 ++ rest.0, rest.1)

  -- `S.shelters.forEach(s => { remaining[s.shelter_id] = ... })`, on what is there already.
  unfoldable pub capacity_of : Shelter → ℕ
  capacity_of s = if s.operational then s.effective_capacity else 0

  unfoldable pub all_places : List (Site F) → Places → Places
  all_places [] remaining = remaining
  all_places (t ∷ ts) remaining =
      all_places ts (insert t.shelter.shelter_id (capacity_of t.shelter) remaining)

  -- `computeRoutes()`
  unfoldable pub compute_routes : List (Site F) → List Road → List Cell → List Zone → List (Route F)
  compute_routes sites roads cells priorities =
      (place_zones sites roads cells (take 14 priorities) (all_places sites [])).0
