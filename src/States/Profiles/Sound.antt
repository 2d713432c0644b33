-- ===== src/States/Profiles/Sound.antt =====
-- states.js ST_PROFILE: what the code relies on in every profile.
use aapda_sync.Base.{
  ℕ, Bool, true, ◌&&◌, some, String, List, [], ◌∷◌, ◌≡◌, refl, arith, inl, inr, length, lookup,
  nat_eq, leb, str_eq, Bool-cases,
}
use aapda_sync.States.{Profile}
use aapda_sync.States.Profiles.{st_profile, state_profile}
use aapda_sync.States.Alerts.{alert_auth}
use aapda_sync.States.Load.{is_given}

-- Every hazard has an authority for its warnings, and a score of at most 100.
abbrev pub all_known : List (String × ℕ) → Bool
all_known [] = true
all_known ((h, v) ∷ rows) = is_given (lookup h alert_auth) && (leb v 100 && all_known rows)

-- 25 zones; and the hazard that defines the event is one of the state's.
abbrev pub is_sound : Profile → Bool
is_sound p = nat_eq (length p.z) 25 && (is_given (lookup p.pri p.hz) && all_known p.hz)

abbrev all_sound : List (String × Profile) → Bool
all_sound [] = true
all_sound ((id, p) ∷ rows) = is_sound p && all_sound rows

lookup-is_sound :
    (id : String) (p : Profile) (rows : List (String × Profile))
    → all_sound rows ≡ true
    → lookup id rows ≡ some p
    → is_sound p ≡ true
unfolding lookup
lookup-is_sound id p [] s e = cc
lookup-is_sound id p ((j, q) ∷ rows) s e = elim (Bool-cases (str_eq j id)) [
  | inl k ↦ ground (arith)
  | inr k ↦ lookup-is_sound id p rows (ground arith) (ground arith)
]

pub state_profile-is_sound :
    (id : String) (p : Profile) → state_profile id ≡ some p → is_sound p ≡ true
unfolding lookup
state_profile-is_sound id p e = lookup-is_sound id p st_profile refl e
