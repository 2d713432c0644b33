-- ===== src/Relocation/Unassigned.antt =====
-- data.js, `computeRoutes`: when a zone's plan leaves people without a shelter.
use aapda_sync.Base.{
  ℕ, zero, suc, ◌+◌, ◌-◌, min, ◌<◌, Bool, true, false, ◌&&◌, none, some, List, [], ◌∷◌, ◌++◌, map,
  keep, length, if◌then◌else◌, ltb, get_elem?, insert, All, ◌≡◌, refl, ap, or_else, arith,
}
use mathlib.Core.Path.{subst}
use aapda_sync.Base.Floats.{Floats, sort_by, put_before}
use aapda_sync.Ranking.{Zone}
use aapda_sync.Shelters.{Cell}
use aapda_sync.Relocation.{
  Places, free, Site, Road, Candidate, Route, route_to, unassigned, candidate, ranked, allot,
}
use aapda_sync.Relocation.Zones.{place_zone}
use aapda_sync.Relocation.Reserve.{allot-used, allot-placed}
use aapda_sync.Relocation.Plan.{assigned}
use aapda_sync.Relocation.Exhausted.{allot-exhausted}

module _ {ℓ} {A : Type ℓ} where
  -- What holds at each index holds of all.
  All-get_elem? :
      (P : A → Type 0) (xs : List A) → ((k : ℕ) (x : A) → get_elem? xs k ≡ some x → P x) → All P xs
  All-get_elem? P [] h = tt
  All-get_elem? P (x ∷ xs) h = (h 0 x refl, All-get_elem? P xs (λ k. h (suc k)))

  get_elem?-All :
      (P : A → Type 0) (xs : List A) (k : ℕ) (x : A) → All P xs → get_elem? xs k ≡ some x → P x
  get_elem?-All P [] k x h e = absurd (ground arith)
  get_elem?-All P (y ∷ xs) zero x h e = subst P (ap (λ o. or_else o y) e) h.0
  get_elem?-All P (y ∷ xs) (suc k) x h e = get_elem?-All P xs k x h.1 e

  All-put_before :
      (less : A → A → Bool) (P : A → Type 0) (x : A) (ys : List A)
      → All P (put_before less x ys)
      → P x × All P ys
  All-put_before less P x [] h = h
  All-put_before less P x (y ∷ ys) h = go (less y x) (All-put_before less P x ys) h
    where
      go :
          (b : Bool)
          → (All P (put_before less x ys) → P x × All P ys)
          → All P (elim b [ true ↦ y ∷ put_before less x ys | false ↦ x ∷ y ∷ ys ])
          → P x × All P (y ∷ ys)
      go true ih k = let rest = ih k.1 in (rest.0, (k.0, rest.1))
      go false ih k = k

  All-sort_by :
      (less : A → A → Bool) (P : A → Type 0) (xs : List A) → All P (sort_by less xs) → All P xs
  All-sort_by less P [] h = tt
  All-sort_by less P (x ∷ xs) h =
      let k = All-put_before less P x (sort_by less xs) h in (k.0, All-sort_by less P xs k.1)

  -- What holds of all elements that are kept, in every element's own words.
  All-keep :
      (p : A → Bool) (P : A → Type 0) (xs : List A)
      → All P (keep p xs)
      → All (λ x. p x ≡ true → P x) xs
  All-keep p P [] h = tt
  All-keep p P (x ∷ xs) h = go (p x) refl (All-keep p P xs) h
    where
      go :
          (b : Bool)
          → p x ≡ b
          → (All P (keep p xs) → All (λ y. p y ≡ true → P y) xs)
          → All P (if b then x ∷ keep p xs else keep p xs)
          → All (λ y. p y ≡ true → P y) (x ∷ xs)
      go true e ih k = (λ _. k.0, ih k.1)
      go false e ih k = (λ t. absurd (ground arith), ih k)

All-map {ℓ κ} :
    {A : Type ℓ} {B : Type κ} (f : A → B) (P : B → Type 0) (xs : List A)
    → All P (map f xs)
    → All (λ x. P (f x)) xs
All-map f P [] h = tt
All-map f P (x ∷ xs) h = (h.0, All-map f P xs h.1)

module _ (F : Floats) where
  -- The people of the routes that lead to no shelter.
  abbrev pub unplaced : List (Route F) → ℕ
  unplaced [] = 0
  unplaced (r ∷ rs) = elim (r.shelter_id) [ none ↦ r.people + unplaced rs | some id ↦ unplaced rs ]

  -- All that a loop over candidates pushes leads to a shelter.
  allot-assigned :
      (z : Zone) (cs : List (Candidate F)) (to_place used : ℕ) (remaining : Places)
      → (ts : List (Route F))
      → (assigned F ((allot F z cs to_place used remaining).routes ++ ts)
          ≡ length (allot F z cs to_place used remaining).routes + assigned F ts)
        × (unplaced ((allot F z cs to_place used remaining).routes ++ ts) ≡ unplaced ts)
  unfolding allot route_to
  allot-assigned z [] to_place used remaining ts = (omega arith, refl)
  allot-assigned z (c ∷ cs) to_place used remaining ts =
      let left = free c.s.shelter_id remaining in
      let people = min to_place left in
      ground (
        arith,
        allot-assigned z cs to_place used remaining ts,
        allot-assigned z cs (to_place - people) (suc used)
            (insert c.s.shelter_id (left - people) remaining) ts,
      )

  -- Where a zone's plan leaves somebody unplaced and uses fewer than three shelters, no operational
  -- shelter has a place left after it.
  pub place_zone-unplaced :
      (sites : List (Site F)) (roads : List Road) (z : Zone) (cell : Cell) (remaining : Places)
      → 0 < unplaced (place_zone F sites roads z cell remaining).0
      → assigned F (place_zone F sites roads z cell remaining).0 < 3
      → (k : ℕ) (t : Site F) → get_elem? sites k ≡ some t
      → t.shelter.operational ≡ true
      → free t.shelter.shelter_id (place_zone F sites roads z cell remaining).1 ≡ 0
  unfolding place_zone ranked candidate unassigned
  place_zone-unplaced sites roads z cell remaining left_over few k t h open_ =
      let cs = ranked F sites roads remaining z cell in
      let out = allot F z cs z.people_to_move 0 remaining in
      let last : List (Route F) =
        if ltb 0 out.to_place then unassigned F z out.to_place ∷ [] else [] in
      let count = allot-assigned z cs z.people_to_move 0 remaining last in
      let used = allot-used F z cs z.people_to_move 0 remaining (omega arith) in
      let some_left : 0 < out.to_place = ground (arith, count.1) in
      let under : out.used < 3 = ground (arith, count.0, used.0) in
      let full =
        All-get_elem? (λ (c : Candidate F). free c.s.shelter_id out.remaining ≡ 0) cs
          (λ j c e. allot-exhausted F z cs z.people_to_move 0 remaining j c e some_left under) in
      let is_candidate =
        λ (u : Site F). u.shelter.operational && ltb 0 (free u.shelter.shelter_id remaining) in
      let Full : Site F → Type 0 = λ u. free u.shelter.shelter_id out.remaining ≡ 0 in
      let ways = map (candidate F roads remaining z cell) (keep is_candidate sites) in
      let FullWay : Candidate F → Type 0 = λ c. free c.s.shelter_id out.remaining ≡ 0 in
      let kept : All Full (keep is_candidate sites) =
        All-map (candidate F roads remaining z cell) FullWay (keep is_candidate sites)
          (All-sort_by (λ (a b : Candidate F). F.lt a.score b.score) FullWay ways full) in
      let of_site =
        get_elem?-All (λ u. is_candidate u ≡ true → Full u) sites k t
          (All-keep is_candidate Full sites kept) h in
      ground (arith, of_site, allot-placed F t.shelter.shelter_id z cs z.people_to_move 0 remaining)
