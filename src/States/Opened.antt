-- ===== src/States/Opened.antt =====
-- data.js `loadState`: the hazard in view after a state was opened, and what the shelters were judged by.
use mathlib.Core.Path.{subst}
use aapda_sync.Base.{
  ℕ, ◌<◌, true, false, Option, none, some, String, List, [], ◌∷◌, ◌≡◌, refl, sym, ap, ◌∙◌, arith,
  inl, inr, map, length, any, All, lookup, str_eq, Bool-cases,
}
use aapda_sync.Base.Fractions.{Fraction}
use aapda_sync.Shelters
use aapda_sync.Shelters.{Shelter, mk_shelter, zone_risk, risk_or_zero, at_least_zero}
use aapda_sync.States.{Profile}
use aapda_sync.States.Season.{Clock}
use aapda_sync.States.Cells.{Cell, build_cells}
use aapda_sync.States.Alerts.{Alert, order_of, build_state_alerts}
use aapda_sync.States.Registers.{build_state_shelters}
use aapda_sync.States.Profiles.{state_profile}
use aapda_sync.States.Profiles.Sound.{all_known, state_profile-is_sound}
use aapda_sync.States.Grid.{keys_of, IsScored, build_cells-IsScored, length-build_cells}
use aapda_sync.States.Warned.{MostSevere, build_state_alerts-MostSevere}
use aapda_sync.States.Told.{told, due, told-build_state_alerts}
use aapda_sync.States.Load.{
  Loaded, Store, is_given, has_hazard, in_view, mk_shelters, known_risk, ut_active, with_hazard,
  registers, load_profile,
}

is_given-lookup :
    (h : String) (a : List (String × ℕ)) → is_given (lookup h a) ≡ any (λ k. str_eq k h) (keys_of a)
unfolding lookup
is_given-lookup h [] = refl
is_given-lookup h ((j, v) ∷ rows) = ground (arith, is_given-lookup h rows)

-- A cell has a hazard exactly if its state does.
has_own :
    (h : String) (p : Profile) (c : Cell)
    → IsScored p c
    → is_given (lookup h c.risk) ≡ is_given (lookup h p.hz)
has_own h p c k =
    is_given-lookup h c.risk ∙ ap (any (λ k. str_eq k h)) k.0 ∙ sym (is_given-lookup h p.hz)

has_hazard-All :
    (h : String) (p : Profile) (cells : List Cell)
    → is_given (lookup h p.hz) ≡ true
    → All (IsScored p) cells
    → 0 < length cells
    → has_hazard h cells ≡ true
unfolding has_hazard
has_hazard-All h p [] e k ne = elim ne [ ]
has_hazard-All h p (c ∷ cells) e k ne = ground (arith, has_own h p c k.0)

has_hazard-none :
    (h : String) (p : Profile) (cells : List Cell)
    → is_given (lookup h p.hz) ≡ false
    → All (IsScored p) cells
    → has_hazard h cells ≡ false
unfolding has_hazard
has_hazard-none h p [] e k = refl
has_hazard-none h p (c ∷ cells) e k =
    ground (arith, has_own h p c k.0, has_hazard-none h p cells e k.1)

pub with_hazard-has :
    (p : Profile) (s : Store)
    → has_hazard p.pri s.loaded.cells ≡ true
    → has_hazard (with_hazard p s).hazard s.loaded.cells ≡ true
with_hazard-has p s e = elim (Bool-cases (has_hazard s.hazard s.loaded.cells)) [
  | inl k ↦ rw k k
  | inr k ↦ rw k e
]

with_hazard-changed :
    (p : Profile) (s : Store)
    → has_hazard s.hazard s.loaded.cells ≡ false
    → (with_hazard p s).hazard ≡ p.pri
with_hazard-changed p s k = rw k refl

pub with_hazard-kept :
    (p : Profile) (s : Store)
    → ((with_hazard p s).focus ≡ s.focus) × ((with_hazard p s).loaded ≡ s.loaded)
with_hazard-kept p s = elim (Bool-cases (has_hazard s.hazard s.loaded.cells)) [
  | inl k ↦ rw k (refl, refl)
  | inr k ↦ rw k (refl, refl)
]

ungiven : (o : Option ℕ) → is_given o ≡ false → at_least_zero (known_risk o) ≡ 0
ungiven none e = refl
ungiven (some v) e = cc

zone_risk-none :
    (h zone : String) (cells : List Cell)
    → has_hazard h cells ≡ false
    → zone_risk (map (in_view h) cells) zone ≡ 0
unfolding has_hazard zone_risk
zone_risk-none h zone [] e = refl
zone_risk-none h zone (c ∷ cells) e =
    ground (arith, zone_risk-none h zone cells, ungiven (lookup h c.risk))

-- No shelter was judged by a risk.
abbrev pub Unjudged : List Shelter → Type 0
Unjudged shelters = All (λ (s : Shelter). s.hazard_risk ≡ 0) shelters

mk_shelters-Unjudged :
    (h : String) (cells : List Cell) (rows : List Shelters.Row)
    → has_hazard h cells ≡ false
    → Unjudged (mk_shelters h cells rows)
unfolding mk_shelter
mk_shelters-Unjudged h cells [] e = tt
mk_shelters-Unjudged h cells (row ∷ rows) e =
    (zone_risk-none h row.zone cells e, mk_shelters-Unjudged h cells rows e)

module _ (hypot : Fraction → Fraction → Fraction) (upper : String → String) (authored : Loaded)
    (id : String) (p : Profile) (t : Clock) (live : List (String × ℕ)) (ut_flood : Option ℕ)
    (s : Store) where
  abbrev cells : List Cell
  cells = build_cells hypot id p t p.z 0

  -- The store before its hazard is looked at.
  abbrev entered : List Alert → Store
  entered alerts = record {
    focus = id;
    hazard = s.hazard;
    loaded = registers hypot upper authored id p s.hazard cells alerts;
  }

  load_profile-opened :
      (alerts : List Alert)
      → ut_active id ut_flood ≡ false
      → build_state_alerts upper id p cells live ≡ some alerts
      → load_profile hypot upper authored id p t live ut_flood s
        ≡ some (with_hazard p (entered alerts))
  unfolding load_profile
  load_profile-opened alerts e e' = rw (e, e') refl

  own_hazard : state_profile id ≡ some p → has_hazard p.pri cells ≡ true
  own_hazard e =
      let sound = state_profile-is_sound id p e in
      let count = length-build_cells hypot id p t p.z 0 in
      has_hazard-All p.pri p cells (ground arith) (build_cells-IsScored hypot id p t p.z 0)
        (ground arith)

  -- A state that has a profile, other than the authored one, is opened: it is in focus, and the hazard in
  -- view is one that its cells have; its alerts are for the first four of its scores from 30 on, from the
  -- highest down, each with the severity of its score; and no score is above that of the first.
  pub load_profile-in_view :
      state_profile id ≡ some p
      → ut_active id ut_flood ≡ false
      → all_known live ≡ true
      → (s' : Store) × (load_profile hypot upper authored id p t live ut_flood s ≡ some s')
        × (s'.focus ≡ id)
        × (has_hazard s'.hazard s'.loaded.cells ≡ true)
        × (map told s'.loaded.alerts ≡ map due (order_of upper live))
        × MostSevere live s'.loaded.alerts
  load_profile-in_view e e' e'' =
      let (alerts, made, severe) = build_state_alerts-MostSevere upper id p cells live e'' in
      let (focus, loaded) = with_hazard-kept p (entered alerts) in
      let s' : Store = with_hazard p (entered alerts) in
      (
        s',
        load_profile-opened alerts e' made,
        focus,
        ap (λ (l : Loaded). has_hazard s'.hazard l.cells) loaded
            ∙ with_hazard-has p (entered alerts) (own_hazard e),
        ap (λ (l : Loaded). map told l.alerts) loaded
            ∙ told-build_state_alerts upper id p cells live alerts e'' made,
        subst (λ (l : Loaded). MostSevere live l.alerts) (sym loaded) severe,
      )

  -- Where the hazard in view is none of the state's, the view changes to the hazard that defines the
  -- state's event, but no shelter is judged by it: each has a risk of 0 on record.
  pub load_profile-Unjudged :
      state_profile id ≡ some p
      → ut_active id ut_flood ≡ false
      → all_known live ≡ true
      → is_given (lookup s.hazard p.hz) ≡ false
      → (s' : Store) × (load_profile hypot upper authored id p t live ut_flood s ≡ some s')
        × (s'.hazard ≡ p.pri)
        × (has_hazard p.pri s'.loaded.cells ≡ true)
        × Unjudged s'.loaded.shelters
  load_profile-Unjudged e e' e'' lacks =
      let (alerts, made, severe) = build_state_alerts-MostSevere upper id p cells live e'' in
      let (focus, loaded) = with_hazard-kept p (entered alerts) in
      let s' : Store = with_hazard p (entered alerts) in
      let unseen =
        has_hazard-none s.hazard p cells lacks (build_cells-IsScored hypot id p t p.z 0) in
      (
        s',
        load_profile-opened alerts e' made,
        with_hazard-changed p (entered alerts) unseen,
        ap (λ (l : Loaded). has_hazard p.pri l.cells) loaded ∙ own_hazard e,
        subst (λ (l : Loaded). Unjudged l.shelters) (sym loaded)
            (mk_shelters-Unjudged s.hazard cells (build_state_shelters upper id p cells) unseen),
      )
