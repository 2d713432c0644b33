-- ===== src/Relocation/Plan.antt =====
-- data.js, `computeRoutes`: what the plan does for each zone, and what it takes from each shelter.
use aapda_sync.Base.{
  ℕ, suc, ◌+◌, ◌≤◌, none, some, String, List, [], ◌∷◌, ◌++◌, length, if◌then◌else◌, ltb, All, ◌≡◌,
  arith,
}
use aapda_sync.Base.Floats.{Floats}
use aapda_sync.Ranking.{Zone}
use aapda_sync.Shelters.{Cell}
use aapda_sync.Relocation.{Places, free, Site, Road, Route, unassigned, allot, ranked}
use aapda_sync.Relocation.Zones.{place_zone}
use aapda_sync.Relocation.Reserve.{people_of, placed, allot-total, allot-placed, allot-used}

module _ (F : Floats) where
  -- How many of the routes lead to a shelter.
  abbrev pub assigned : List (Route F) → ℕ
  assigned [] = 0
  assigned (r ∷ rs) = elim (r.shelter_id) [ none ↦ assigned rs | some id ↦ suc (assigned rs) ]

  pub people_of-append :
      (rs ts : List (Route F)) → people_of F (rs ++ ts) ≡ people_of F rs + people_of F ts
  people_of-append [] ts = omega arith
  people_of-append (r ∷ rs) ts = omega (arith, people_of-append rs ts)

  pub placed-append :
      (id : String) (rs ts : List (Route F))
      → placed F id (rs ++ ts) ≡ placed F id rs + placed F id ts
  placed-append id [] ts = omega arith
  placed-append id (r ∷ rs) ts = omega (arith, placed-append id rs ts)

  pub assigned-append_le : (rs ts : List (Route F)) → assigned (rs ++ ts) ≤ length rs + assigned ts
  assigned-append_le [] ts = omega arith
  assigned-append_le (r ∷ rs) ts = ground (arith, assigned-append_le rs ts)

  pub All-append :
      (P : Route F → Type 0) (rs ts : List (Route F)) → All P rs → All P ts → All P (rs ++ ts)
  All-append P [] ts p q = q
  All-append P (r ∷ rs) ts p q = (p.0, All-append P rs ts p.1 q)

  -- The routes of a zone carry the people to be moved from it, each of them somebody; at most three
  -- lead to a shelter; and what they take from any shelter is what it has fewer afterwards.
  pub place_zone-allots :
      (sites : List (Site F)) (roads : List Road) (z : Zone) (cell : Cell) (remaining : Places)
      (id : String)
      → (people_of F (place_zone F sites roads z cell remaining).0 ≡ z.people_to_move)
        × All (λ (r : Route F). 1 ≤ r.people) (place_zone F sites roads z cell remaining).0
        × (assigned (place_zone F sites roads z cell remaining).0 ≤ 3)
        × (placed F id (place_zone F sites roads z cell remaining).0
              + free id (place_zone F sites roads z cell remaining).1
            ≡ free id remaining)
  unfolding place_zone unassigned
  place_zone-allots sites roads z cell remaining id =
      let cs = ranked F sites roads remaining z cell in
      let out = allot F z cs z.people_to_move 0 remaining in
      let total = allot-total F z cs z.people_to_move 0 remaining in
      let used = allot-used F z cs z.people_to_move 0 remaining (omega arith) in
      let last : List (Route F) =
        if ltb 0 out.to_place then unassigned F z out.to_place ∷ [] else [] in
      (
        ground (arith, people_of-append out.routes last, total),
        All-append _ out.routes last used.2 (ground arith),
        ground (arith, assigned-append_le out.routes last, used.0, used.1),
        ground (
          arith,
          placed-append id out.routes last,
          allot-placed F id z cs z.people_to_move 0 remaining,
        ),
      )
