-- ===== src/Relocation/Reserve.antt =====
-- data.js, `computeRoutes`: the loop over the candidates of a zone.
use aapda_sync.Base.{
  ℕ, suc, ◌+◌, ◌-◌, min, ◌≤◌, Option, none, some, String, List, [], ◌∷◌, length, if◌then◌else◌,
  str_eq, insert, lookup-insert, All, ◌≡◌, arith, str_eq_iff,
}
use aapda_sync.Base.Floats.{Floats}
use aapda_sync.Ranking.{Zone}
use aapda_sync.Relocation.{Places, free, Candidate, Route, route_to, allot}

-- `route.shelter_id === id`
abbrev pub goes_to : String → Option String → ℕ → ℕ
goes_to id none people = 0
goes_to id (some shelter) people = if str_eq shelter id then people else 0

pub free-insert :
    (k id : String) (v : ℕ) (m : Places)
    → free id (insert k v m) ≡ (if str_eq k id then v else free id m)
free-insert k id v m = ground (arith, lookup-insert k id v m)

module _ (F : Floats) where
  -- The people of the routes, and those of the routes to one shelter.
  abbrev pub people_of : List (Route F) → ℕ
  people_of [] = 0
  people_of (r ∷ rs) = r.people + people_of rs

  abbrev pub placed : String → List (Route F) → ℕ
  placed id [] = 0
  placed id (r ∷ rs) = goes_to id r.shelter_id r.people + placed id rs

  pub allot-total :
      (z : Zone) (cs : List (Candidate F)) (to_place used : ℕ) (remaining : Places)
      → people_of (allot F z cs to_place used remaining).routes
          + (allot F z cs to_place used remaining).to_place
        ≡ to_place
  unfolding allot route_to
  allot-total z [] to_place used remaining = omega arith
  allot-total z (c ∷ cs) to_place used remaining =
      let left = free c.s.shelter_id remaining in
      let people = min to_place left in
      ground (
        arith,
        allot-total z cs to_place used remaining,
        allot-total z cs (to_place - people) (suc used)
            (insert c.s.shelter_id (left - people) remaining),
      )

  pub allot-placed :
      (id : String) (z : Zone) (cs : List (Candidate F)) (to_place used : ℕ) (remaining : Places)
      → placed id (allot F z cs to_place used remaining).routes
          + free id (allot F z cs to_place used remaining).remaining
        ≡ free id remaining
  unfolding allot route_to
  allot-placed id z [] to_place used remaining = omega arith
  allot-placed id z (c ∷ cs) to_place used remaining =
      let left = free c.s.shelter_id remaining in
      let people = min to_place left in
      ground (
        arith,
        allot-placed id z cs to_place used remaining,
        allot-placed id z cs (to_place - people) (suc used)
            (insert c.s.shelter_id (left - people) remaining),
        free-insert c.s.shelter_id id (left - people) remaining,
        str_eq_iff c.s.shelter_id id,
      )

  -- Each route that is pushed moves somebody, and makes one shelter more that is used, of three.
  pub allot-used :
      (z : Zone) (cs : List (Candidate F)) (to_place used : ℕ) (remaining : Places)
      → used ≤ 3
      → ((allot F z cs to_place used remaining).used
          ≡ used + length (allot F z cs to_place used remaining).routes)
        × ((allot F z cs to_place used remaining).used ≤ 3)
        × All (λ (r : Route F). 1 ≤ r.people) (allot F z cs to_place used remaining).routes
  unfolding allot route_to
  allot-used z [] to_place used remaining h = (omega arith, h, tt)
  allot-used z (c ∷ cs) to_place used remaining h =
      let left = free c.s.shelter_id remaining in
      let people = min to_place left in
      ground (
        arith,
        allot-used z cs to_place used remaining,
        allot-used z cs (to_place - people) (suc used)
            (insert c.s.shelter_id (left - people) remaining),
      )
