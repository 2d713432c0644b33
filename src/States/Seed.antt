-- ===== src/States/Seed.antt =====
-- data.js `seedStates`: the national picture, from the profiles and the clock. `name_of` is
-- `HAZ[h].name`, of the catalogue that the backend generates.
use aapda_sync.Base.{
  ℕ, ◌*◌, min, max, Bool, Option, none, some, ◌>>=◌, String, List, [], ◌∷◌, map, keep,
  if◌then◌else◌, leb, joined,
}
use aapda_sync.Base.Highest.{highest_first}
use aapda_sync.Base.Fractions.{frac, times, rounded}
use aapda_sync.States.{Profile, Register}
use aapda_sync.States.Season.{Clock, clock_factor, season_label}

-- `S.states[id]`
pub record State : Type 0 where
  pub id : String
  pub name : String
  pub district : String
  pub pop : String
  pub hz : List (String × ℕ)
  pub primary : String
  pub since_age : ℕ
  pub dis : String
  pub note : String
  pub reg : Register
  pub scope : String
  pub coastal : Bool

-- `Math.max(4, Math.min(98, Math.round(P.hz[h] * clockFactor(h))))`
unfoldable pub seeded_score : Clock → String × ℕ → String × ℕ
seeded_score t (h, v) = (h, max 4 (min 98 (rounded 1 (times (frac v 1) (clock_factor h t)))))

abbrev pub seeded_scores : Clock → List (String × ℕ) → List (String × ℕ)
seeded_scores t hz = map (seeded_score t) hz

-- `Object.entries(hz).sort((a, b) => b[1] - a[1])`
abbrev pub by_score : List (String × ℕ) → List (String × ℕ)
by_score hz = highest_first (λ (row : String × ℕ). row.1) hz

module _ (name_of : String → String) where
  abbrev pub joined_by_plus : List String → Option String
  joined_by_plus [] = none
  joined_by_plus (a ∷ []) = some a
  joined_by_plus (a ∷ b ∷ rest) = some (joined (a ∷ " + " ∷ b ∷ []))

  -- The names of the hazards at 60 or more.
  abbrev pub named : List (String × ℕ) → List String
  named top =
      map (λ (row : String × ℕ). name_of row.0) (keep (λ (row : String × ℕ). leb 60 row.1) top)

  abbrev pub situation : Option String → String × ℕ → String
  situation (some text) top = text
  situation none (h, v) = if leb 40 v then joined (name_of h ∷ " Watch" ∷ []) else "Monitored"

  abbrev pub note_of : Profile → Clock → String × ℕ → String
  note_of p t (h, v) =
      if leb 60 v
      then p.note
      else if leb 40 v
      then joined (name_of h ∷ " risk is elevated for the season. " ∷ (season_label t).1 ∷ [])
      else joined ("No declared event. " ∷ (season_label t).1 ∷ [])

  abbrev pub age_of : Profile → String × ℕ → ℕ
  age_of p (h, v) = if leb 60 v then p.age else rounded 1 (frac (p.age * 35) 100)

  -- `S.states[id]`, with the hazards from the highest on; `none` where there is no hazard and `top[0]`
  -- throws.
  unfoldable pub seeded_from :
      (id : String) → Profile → Clock → (hz top : List (String × ℕ)) → Option State
  seeded_from id p t hz [] = none
  seeded_from id p t hz (first ∷ rest) = some (record {
    id = id;
    name = p.n;
    district = p.d;
    pop = p.pop;
    hz = hz;
    primary = first.0;
    since_age = age_of p first;
    dis = situation (joined_by_plus (named (first ∷ rest))) first;
    note = note_of p t first;
    reg = p.reg;
    scope = p.scope;
    coastal = p.cst;
  })

  unfoldable pub seed_state : (id : String) → Profile → Clock → Option State
  seed_state id p t = let hz = seeded_scores t p.hz in seeded_from id p t hz (by_score hz)

  -- `seedStates()`, with `none` where a state throws.
  unfoldable pub seed_states : List (String × Profile) → Clock → Option (List (String × State))
  seed_states [] t = some []
  seed_states ((id, p) ∷ rows) t = do
    s ← seed_state id p t
    rest ← seed_states rows t
    some ((id, s) ∷ rest)
