-- ===== src/States/Seeded.antt =====
-- data.js `seedStates`: the scores and the main hazard that a state starts with.
use mathlib.Core.Path.{subst}
use aapda_sync.Base.{
  ℕ, Bool, true, false, some, String, List, [], ◌∷◌, ◌≡◌, refl, sym, ap, ◌∙◌, arith, any, lookup,
}
use aapda_sync.Base.Highest.{IsLed, is_above, any-sort_by, highest_first-IsLed}
use aapda_sync.States.{Profile}
use aapda_sync.States.Season.{Clock}
use aapda_sync.States.Seed.{State, seeded_score, seeded_scores, by_score, seeded_from, seed_state}
use aapda_sync.States.Load.{is_given}
use aapda_sync.States.Profiles.{state_profile}
use aapda_sync.States.Profiles.Sound.{state_profile-is_sound}
use aapda_sync.States.Grid.{keys_of, Scores}
use aapda_sync.States.Warned.{score_in, has_score, found, above, scored, higher}

abbrev is_any : String × ℕ → Bool
is_any row = true

seeded_scores-keys :
    (t : Clock) (hz : List (String × ℕ)) → keys_of (seeded_scores t hz) ≡ keys_of hz
unfolding seeded_score
seeded_scores-keys t [] = refl
seeded_scores-keys t ((h, v) ∷ hz) = ap (λ ks. h ∷ ks) (seeded_scores-keys t hz)

seeded_scores-Scores : (t : Clock) (hz : List (String × ℕ)) → Scores 4 98 (seeded_scores t hz)
unfolding seeded_score
seeded_scores-Scores t [] = tt
seeded_scores-Scores t ((h, v) ∷ hz) = ((omega arith, omega arith), seeded_scores-Scores t hz)

any_given :
    (h : String) (t : Clock) (hz : List (String × ℕ))
    → is_given (lookup h hz) ≡ true
    → any is_any (seeded_scores t hz) ≡ true
unfolding lookup
any_given h t [] e = cc
any_given h t ((j, v) ∷ hz) e = refl

module _ (name_of : String → String) (id : String) (p : Profile) (t : Clock) where
  seeded_led :
      (hz top : List (String × ℕ))
      → IsLed score_in top
      → any is_any top ≡ true
      → (s : State) × (v : ℕ) × (seeded_from name_of id p t hz top ≡ some s)
        × (s.hz ≡ hz)
        × (has_score s.primary v top ≡ true)
        × (is_above score_in v top ≡ false)
  unfolding seeded_from
  seeded_led hz [] led e = cc
  seeded_led hz ((h, v) ∷ top) led e = (_, v, refl, refl, found h v top, ground arith)

  -- Every state that has a profile is seeded, with the hazards of its profile, each with a score from 4
  -- to 98 whatever the season; and its main hazard is one with the highest score.
  pub seed_state-primary :
      state_profile id ≡ some p
      → (s : State) × (v : ℕ) × (seed_state name_of id p t ≡ some s)
        × (keys_of s.hz ≡ keys_of p.hz)
        × Scores 4 98 s.hz
        × (has_score s.primary v s.hz ≡ true)
        × (is_above score_in v s.hz ≡ false)
  unfolding seed_state
  seed_state-primary e =
      let hz = seeded_scores t p.hz in
      let sound = state_profile-is_sound id p e in
      let some_score = any-sort_by higher is_any hz ∙ any_given p.pri t p.hz (ground arith) in
      let (s, v, made, same, main, top) =
        seeded_led hz (by_score hz) (highest_first-IsLed score_in hz) some_score in
      (
        s,
        v,
        made,
        ap keys_of same ∙ seeded_scores-keys t p.hz,
        subst (Scores 4 98) (sym same) (seeded_scores-Scores t p.hz),
        ap (has_score s.primary v) same ∙ sym (scored s.primary v hz) ∙ main,
        ap (is_above score_in v) same ∙ sym (above v hz) ∙ top,
      )
