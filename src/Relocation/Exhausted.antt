-- ===== src/Relocation/Exhausted.antt =====
-- data.js, `computeRoutes`: why people stay unassigned.
use mathlib.Core.Path.{subst}
use aapda_sync.Base.{
  ℕ, zero, suc, ◌-◌, min, ◌≤◌, ◌<◌, String, List, [], ◌∷◌, insert, get_elem?, some, ap, or_else,
  ◌≡◌, arith, str_eq_iff,
}
use aapda_sync.Base.Floats.{Floats}
use aapda_sync.Ranking.{Zone}
use aapda_sync.Relocation.{Places, free, Candidate, route_to, allot}
use aapda_sync.Relocation.Reserve.{free-insert, allot-total, allot-placed, allot-used}

module _ (F : Floats) where
  -- A loop takes places and never gives any.
  free-allot :
      (id : String) (z : Zone) (cs : List (Candidate F)) (to_place used : ℕ) (remaining : Places)
      → free id (allot F z cs to_place used remaining).remaining ≤ free id remaining
  free-allot id z cs to_place used remaining =
      omega (arith, allot-placed F id z cs to_place used remaining)

  allot-exhausted_head :
      (z : Zone) (c : Candidate F) (cs : List (Candidate F)) (to_place used : ℕ)
      (remaining : Places)
      → 0 < (allot F z (c ∷ cs) to_place used remaining).to_place
      → (allot F z (c ∷ cs) to_place used remaining).used < 3
      → free c.s.shelter_id (allot F z (c ∷ cs) to_place used remaining).remaining ≡ 0
  unfolding allot route_to
  allot-exhausted_head z c cs to_place used remaining left_over few =
      let left = free c.s.shelter_id remaining in
      let people = min to_place left in
      ground (
        arith,
        free-allot c.s.shelter_id z cs to_place used remaining,
        free-allot c.s.shelter_id z cs (to_place - people) (suc used)
            (insert c.s.shelter_id (left - people) remaining),
        free-insert c.s.shelter_id c.s.shelter_id (left - people) remaining,
        str_eq_iff c.s.shelter_id c.s.shelter_id,
        allot-total F z cs to_place used remaining,
        allot-used F z cs to_place used remaining,
        allot-used F z cs (to_place - people) (suc used)
            (insert c.s.shelter_id (left - people) remaining),
        allot-total F z cs (to_place - people) (suc used)
            (insert c.s.shelter_id (left - people) remaining),
      )

  -- Where people are left over though fewer than three shelters are used, no candidate has a place
  -- left.
  pub allot-exhausted :
      (z : Zone) (cs : List (Candidate F)) (to_place used : ℕ) (remaining : Places)
      → (k : ℕ) (c : Candidate F) → get_elem? cs k ≡ some c
      → 0 < (allot F z cs to_place used remaining).to_place
      → (allot F z cs to_place used remaining).used < 3
      → free c.s.shelter_id (allot F z cs to_place used remaining).remaining ≡ 0
  unfolding allot route_to
  allot-exhausted z [] to_place used remaining k c h left_over few = absurd (ground arith)
  allot-exhausted z (c ∷ cs) to_place used remaining zero c' h left_over few =
      subst
        (λ (x : Candidate F).
          free x.s.shelter_id (allot F z (c ∷ cs) to_place used remaining).remaining ≡ 0)
        (ap (λ o. or_else o c) h)
        (allot-exhausted_head z c cs to_place used remaining left_over few)
  allot-exhausted z (c ∷ cs) to_place used remaining (suc k) c' h left_over few =
      let left = free c.s.shelter_id remaining in
      let people = min to_place left in
      ground (
        arith,
        allot-exhausted z cs to_place used remaining k c' h,
        allot-exhausted z cs (to_place - people) (suc used)
            (insert c.s.shelter_id (left - people) remaining) k c' h,
        allot-used F z cs to_place used remaining,
        allot-total F z cs (to_place - people) (suc used)
            (insert c.s.shelter_id (left - people) remaining),
      )
