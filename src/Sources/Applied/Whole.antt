-- ===== src/Sources/Applied/Whole.antt =====
-- livedata.js `applyObservations`: what a whole round of observations leaves of the states.
use mathlib.Core.Path.{subst}
use aapda_sync.Base.{
  ℕ, ◌+◌, Bool, true, not, ◌&&◌, ◌||◌, Option, none, some, String, List, [], ◌∷◌, ◌≡◌, refl, sym,
  ◌∙◌, inl, inr, any, lookup, Bool-cases,
}
use aapda_sync.Base.Floats.{Floats}
use aapda_sync.Base.Highest.{any-sort_by}
use aapda_sync.States.Seed.{by_score}
use aapda_sync.States.Warned.{higher}
use aapda_sync.Sources.{LiveData, Source, source_fresh}
use aapda_sync.Sources.Observed.{State, Maths, Obs, Quake}
use aapda_sync.Sources.Observed.Kept.{Followed, apply_to_state-Followed}
use aapda_sync.Sources.Cells.{Cell}
use aapda_sync.Sources.Applied.{
  Row, Store, labelled, observed_state, cells_for, visit, visit_all, apply_observations,
}

-- A state has some hazard.
abbrev pub HasHazard : State → Type 0
HasHazard st = (h : String) × (v : ℕ) × (lookup h st.hz ≡ some v)

abbrev pub AllHave : List (String × Row) → Type 0
AllHave [] = Unit
AllHave ((id, row) ∷ rows) = HasHazard row.state × AllHave rows

-- State by state, in the same order.
abbrev pub AllFollowed : (hazard : String) (before after : List (String × Row)) → Type 0
AllFollowed hazard [] [] = Unit
AllFollowed hazard [] (r ∷ rs) = ⊥
AllFollowed hazard (r ∷ rs) [] = ⊥
AllFollowed hazard ((i, r) ∷ rs) ((j, r') ∷ rs') =
    (i ≡ j) × Followed hazard r.state r'.state × AllFollowed hazard rs rs'

AllFollowed-refl : (hazard : String) (rows : List (String × Row)) → AllFollowed hazard rows rows
AllFollowed-refl hazard [] = tt
AllFollowed-refl hazard ((i, r) ∷ rows) = (refl, inl (refl, refl), AllFollowed-refl hazard rows)

abbrev is_any : String × ℕ → Bool
is_any row = true

lookup-any :
    (h : String) (v : ℕ) (hz : List (String × ℕ)) → lookup h hz ≡ some v → any is_any hz ≡ true
unfolding lookup
lookup-any h v [] e = cc
lookup-any h v (row ∷ hz) e = refl

labelled-some :
    (name_of : String → String) (st : State) (top : List (String × ℕ))
    → any is_any top ≡ true
    → (row : Row) × (labelled name_of st top ≡ some row) × (row.state ≡ st)
labelled-some name_of st [] e = cc
labelled-some name_of st (first ∷ rest) e = (_, refl, refl)

Followed-HasHazard :
    (h : String) (v : ℕ) (a b : State) → lookup h a.hz ≡ some v → Followed h a b → HasHazard b
Followed-HasHazard h v a b e (inl (k, l)) = (h, v, k ∙ e)
Followed-HasHazard h v a b e (inr (w, x, i, j, l, lo, hi)) = (h, x, j)

module _ (F : Floats) (M : Maths F.Num) (name_of : String → String)
    (obs_of : String → Option (Obs F M)) (place_of : String → F.Num × F.Num)
    (quakes : List (Quake F M)) (hazard : String) where
  module _ (focus : String) (weather_ok flood_ok quake_ok : Bool) where
    Visited : (id : String) → Option (Obs F M) → Row → List Cell → Type 0
    Visited id o row cells =
        (row' : Row) × (cells' : List Cell) × (n : ℕ) × (visit F M name_of obs_of place_of quakes
            focus weather_ok flood_ok quake_ok id o row cells
          ≡ some (row', cells', n))
        × Followed hazard row.state row'.state

    visit-Followed :
        (id : String) (o : Option (Obs F M)) (row : Row) (cells : List Cell)
        → HasHazard row.state
        → Visited id o row cells
    unfolding visit Visited
    visit-Followed id none row cells h = (row, cells, 0, refl, inl (refl, refl))
    visit-Followed id (some o) row cells (k, v, e) =
        let st =
          (observed_state F M name_of obs_of place_of quakes focus weather_ok flood_ok quake_ok id o
            row.state).0 in
        let follows : (h : String) → Followed h row.state st = λ h.
          apply_to_state-Followed F M h weather_ok flood_ok quake_ok o (place_of id).0
            (place_of id).1 quakes row.state in
        let (k', v', e') = Followed-HasHazard k v row.state st e (follows k) in
        let (row', made, same) =
          labelled-some name_of st (by_score st.hz)
            (any-sort_by higher is_any st.hz ∙ lookup-any k' v' st.hz e') in
        (
          row',
          cells_for F M name_of obs_of place_of quakes focus weather_ok flood_ok quake_ok id
              row.state st cells,
          (observed_state F M name_of obs_of place_of quakes focus weather_ok flood_ok quake_ok id o
              row.state).1,
          rw made refl,
          subst (Followed hazard row.state) (sym same) (follows hazard),
        )

    AllVisited : List (String × Row) → List Cell → Type 0
    AllVisited rows cells =
        (rows' : List (String × Row)) × (cells' : List Cell) × (n : ℕ) × (visit_all F M name_of
            obs_of place_of quakes focus weather_ok flood_ok quake_ok rows cells
          ≡ some (rows', cells', n))
        × AllFollowed hazard rows rows'

    visit_all-AllFollowed :
        (rows : List (String × Row)) (cells : List Cell) → AllHave rows → AllVisited rows cells
    unfolding visit_all AllVisited Visited
    visit_all-AllFollowed [] cells k = ([], cells, 0, refl, tt)
    visit_all-AllFollowed ((id, row) ∷ rows) cells (k, ks) =
        let (row', cells', n, made, follows) = visit-Followed id (obs_of id) row cells k in
        let (rows', cells'', m, all_made, all_follow) = visit_all-AllFollowed rows cells' ks in
        ((id, row') ∷ rows', cells'', n + m, rw (made, all_made) refl, (refl, follows, all_follow))

  -- With a hazard in every state, a round of observations does not throw; and it keeps the states and
  -- their order, and of every hazard of a state it keeps the risk or replaces one the state had by a
  -- score between 2 and 99, which it marks as live.
  pub apply_observations-AllFollowed :
      (now : ℕ) (d : LiveData) (s : Store)
      → AllHave s.states
      → (after : Store) × (n : ℕ) × (apply_observations F M name_of obs_of place_of quakes now d s
          ≡ some (after, n))
        × AllFollowed hazard s.states after.states
  unfolding apply_observations AllVisited
  apply_observations-AllFollowed now d s k =
      let weather_ok = source_fresh now Source.weather d in
      let flood_ok = source_fresh now Source.flood d in
      let quake_ok = source_fresh now Source.quake d in
      let (rows, cells, n, made, follow) =
        visit_all-AllFollowed s.focus weather_ok flood_ok quake_ok s.states s.cells k in
      elim (Bool-cases (not d.ever_connected || (not weather_ok && not quake_ok))) [
        | inl off ↦ (s, 0, rw off refl, AllFollowed-refl hazard s.states)
        | inr on ↦ (
          record { focus = s.focus; states = rows; cells = cells },
          n,
          rw (on, made) refl,
          follow,
        )
      ]
