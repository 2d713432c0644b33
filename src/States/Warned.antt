-- ===== src/States/Warned.antt =====
-- states.js `buildStateAlerts`: which hazards of a state are warned of.
use aapda_sync.Base.{
  ℕ, zero, suc, ◌≤◌, Bool, true, false, not, ◌&&◌, Option, none, some, String, List, [], ◌∷◌, ◌≡◌,
  refl, sym, ap, ◌∙◌, arith, inl, inr, take, keep, length, any, lookup, leb, ltb, nat_eq, str_eq,
  str_eq_refl, Bool-cases,
}
use aapda_sync.Base.Highest.{IsLed, is_above, is_above-le, any-sort_by, highest_first-IsLed}
use aapda_sync.States.{Profile}
use aapda_sync.States.Seed.{by_score}
use aapda_sync.States.Cells.{Cell}
use aapda_sync.States.Alerts.{Alert, alert_auth, alert_of, alerts_of, build_state_alerts, sev_for}
use aapda_sync.States.Load.{is_given}
use aapda_sync.States.Profiles.Sound.{all_known}

abbrev pub score_in : String × ℕ → ℕ
score_in row = row.1

abbrev pub has_score : String → ℕ → List (String × ℕ) → Bool
has_score h v rows = any (λ (row : String × ℕ). str_eq row.0 h && nat_eq row.1 v) rows

-- Of the scores `live`: no alert, and no score of 30; or at most four alerts, of which the first is
-- for a hazard with the highest score, which is at least 30, and has the severity of that score.
abbrev pub MostSevere : List (String × ℕ) → List Alert → Type 0
MostSevere live [] = is_above score_in 29 live ≡ false
MostSevere live (a ∷ rest) =
    (v : ℕ) × (has_score a.haz v live ≡ true)
    × (is_above score_in v live ≡ false)
    × (30 ≤ v)
    × (a.sev ≡ sev_for v)
    × (length rest ≤ 3)

-- Of such scores, none is refused for want of an authority.
abbrev pub without_authority : String × ℕ → Bool
without_authority row = not (is_given (lookup row.0 alert_auth))

pub any-take {ℓ} :
    {A : Type ℓ} (p : A → Bool) (n : ℕ) (xs : List A) → any p xs ≡ false → any p (take n xs) ≡ false
any-take p zero xs e = refl
any-take p (suc n) [] e = refl
any-take p (suc n) (x ∷ xs) e = ground (arith, any-take p n xs)

pub any-keep {ℓ} :
    {A : Type ℓ} (p q : A → Bool) (xs : List A) → any p xs ≡ false → any p (keep q xs) ≡ false
any-keep p q [] e = refl
any-keep p q (x ∷ xs) e = ground (arith, any-keep p q xs)

length-take_le {ℓ} : {A : Type ℓ} (n : ℕ) (xs : List A) → length (take n xs) ≤ n
length-take_le zero xs = omega arith
length-take_le (suc n) [] = omega arith
length-take_le (suc n) (x ∷ xs) = omega (arith, length-take_le n xs)

abbrev pub in_force : String × ℕ → Bool
in_force row = leb 30 row.1

keep-low : (rows : List (String × ℕ)) → is_above score_in 29 rows ≡ false → keep in_force rows ≡ []
keep-low [] e = refl
keep-low (row ∷ rows) e = ground (arith, keep-low rows)

pub known-none :
    (rows : List (String × ℕ)) → all_known rows ≡ true → any without_authority rows ≡ false
known-none [] e = refl
known-none ((h, v) ∷ rows) e = ground (arith, known-none rows)

pub found : (h : String) (v : ℕ) (rows : List (String × ℕ)) → has_score h v ((h, v) ∷ rows) ≡ true
found h v rows = rw (str_eq_refl h) (ground arith)

-- The sort leaves the scores as they are.
abbrev pub higher : String × ℕ → String × ℕ → Bool
higher a b = ltb (score_in b) (score_in a)

pub above :
    (n : ℕ) (live : List (String × ℕ))
    → is_above score_in n (by_score live) ≡ is_above score_in n live
above n live = any-sort_by higher (λ (row : String × ℕ). ltb n (score_in row)) live

pub scored :
    (h : String) (v : ℕ) (live : List (String × ℕ))
    → has_score h v (by_score live) ≡ has_score h v live
scored h v live = any-sort_by higher (λ (row : String × ℕ). str_eq row.0 h && nat_eq row.1 v) live

pub given_some {ℓ} : {A : Type ℓ} (o : Option A) → not (is_given o) ≡ false → (a : A) × (o ≡ some a)
given_some none e = cc
given_some (some a) e = (a, refl)

module _ (upper : String → String) (sid : String) (p : Profile) (cells : List Cell) where
  pub alerts_of-cons :
      (i : ℕ) (h : String) (v : ℕ) (auth : String × String) (rows : List (String × ℕ))
      (rest : List Alert)
      → lookup h alert_auth ≡ some auth
      → alerts_of upper sid p cells (suc i) rows ≡ some rest
      → alerts_of upper sid p cells i ((h, v) ∷ rows)
        ≡ some (alert_of upper sid p cells i h v auth.0 auth.1 ∷ rest)
  unfolding alerts_of
  alerts_of-cons i h v auth rows rest e e' = rw (e, e') refl

  alerts_of-some :
      (i : ℕ) (rows : List (String × ℕ))
      → any without_authority rows ≡ false
      → (alerts : List Alert) × (alerts_of upper sid p cells i rows ≡ some alerts)
        × (length alerts ≡ length rows)
  unfolding alerts_of
  alerts_of-some i [] e = ([], refl, refl)
  alerts_of-some i ((h, v) ∷ rows) e =
      let (auth, k) = given_some (lookup h alert_auth) (ground arith) in
      let (rest, made, l) = alerts_of-some (suc i) rows (ground arith) in
      (
        alert_of upper sid p cells i h v auth.0 auth.1 ∷ rest,
        alerts_of-cons i h v auth rows rest k made,
        ap suc l,
      )

  warned_led :
      (rows : List (String × ℕ))
      → IsLed score_in rows
      → any without_authority rows ≡ false
      → (alerts : List Alert) × (alerts_of upper sid p cells 0 (take 4 (keep in_force rows))
          ≡ some alerts)
        × MostSevere rows alerts
  unfolding alerts_of alert_of
  warned_led [] led e = ([], refl, refl)
  warned_led ((h, v) ∷ rows) led e = elim (Bool-cases (leb 30 v)) [
    | inl k ↦
        (let quiet =
            any-take without_authority 3 (keep in_force rows)
              (any-keep without_authority in_force rows (ground arith)) in
          let (rest, made, l) = alerts_of-some 1 (take 3 (keep in_force rows)) quiet in
          let (auth, k') = given_some (lookup h alert_auth) (ground arith) in
          rw k (
            alert_of upper sid p cells 0 h v auth.0 auth.1 ∷ rest,
            alerts_of-cons 0 h v auth (take 3 (keep in_force rows)) rest k' made,
            (
              v,
              found h v rows,
              ground arith,
              ground arith,
              refl,
              omega (arith, l, length-take_le 3 (keep in_force rows)),
            ),
          ))
    | inr k ↦
        (let low = is_above-le score_in v 29 rows (ground arith) led in
          rw (k, keep-low rows low) ([], refl, ground arith))
  ]

  MostSevere-by_score :
      (live : List (String × ℕ)) (alerts : List Alert)
      → MostSevere (by_score live) alerts
      → MostSevere live alerts
  MostSevere-by_score live [] h = sym (above 29 live) ∙ h
  MostSevere-by_score live (a ∷ rest) (v, h, h', le, e, l) =
      (v, sym (scored a.haz v live) ∙ h, sym (above v live) ∙ h', le, e, l)

  -- Where every hazard of a state has an authority for its warnings, as in every profile, the alerts
  -- are made; and either nothing scores 30 and there is none, or there are at most four, the first
  -- for a hazard with the highest score, with the severity of that score.
  pub build_state_alerts-MostSevere :
      (live : List (String × ℕ))
      → all_known live ≡ true
      → (alerts : List Alert) × (build_state_alerts upper sid p cells live ≡ some alerts)
        × MostSevere live alerts
  unfolding build_state_alerts
  build_state_alerts-MostSevere live e =
      let (alerts, made, h) =
        warned_led (by_score live) (highest_first-IsLed score_in live)
          (any-sort_by higher without_authority live ∙ known-none live e) in
      (alerts, made, MostSevere-by_score live alerts h)
