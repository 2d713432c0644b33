-- ===== src/States/Told.antt =====
-- states.js `buildStateAlerts`: for which hazards the alerts are, and how severe.
use aapda_sync.Base.{
  ℕ, suc, true, false, some, String, List, [], ◌∷◌, ◌≡◌, refl, ap, ◌∙◌, arith, map, any, lookup,
}
use aapda_sync.Base.Highest.{any-sort_by}
use aapda_sync.States.{Profile}
use aapda_sync.States.Seed.{by_score}
use aapda_sync.States.Cells.{Cell}
use aapda_sync.States.Alerts.{
  Alert, alert_auth, alert_of, alerts_of, order_of, build_state_alerts, sev_for,
}
use aapda_sync.States.Profiles.Sound.{all_known}
use aapda_sync.States.Warned.{
  higher, without_authority, any-take, any-keep, known-none, given_some, alerts_of-cons, in_force,
}

-- The hazard of an alert and its severity, and those that a score asks for.
abbrev pub told : Alert → String × String
told a = (a.haz, a.sev)

abbrev pub due : String × ℕ → String × String
due row = (row.0, sev_for row.1)

module _ (upper : String → String) (sid : String) (p : Profile) (cells : List Cell) where
  told-alerts_of :
      (i : ℕ) (rows : List (String × ℕ))
      → any without_authority rows ≡ false
      → (alerts : List Alert) × (alerts_of upper sid p cells i rows ≡ some alerts)
        × (map told alerts ≡ map due rows)
  unfolding alerts_of alert_of
  told-alerts_of i [] e = ([], refl, refl)
  told-alerts_of i ((h, v) ∷ rows) e =
      let (auth, k) = given_some (lookup h alert_auth) (ground arith) in
      let (rest, made, same) = told-alerts_of (suc i) rows (ground arith) in
      (
        alert_of upper sid p cells i h v auth.0 auth.1 ∷ rest,
        alerts_of-cons upper sid p cells i h v auth rows rest k made,
        ap (λ ts. (h, sev_for v) ∷ ts) same,
      )

  -- The alerts are for the first four of the scores from 30 on, from the highest down, each with the
  -- severity of its score.
  pub told-build_state_alerts :
      (live : List (String × ℕ)) (alerts : List Alert)
      → all_known live ≡ true
      → build_state_alerts upper sid p cells live ≡ some alerts
      → map told alerts ≡ map due (order_of upper live)
  unfolding build_state_alerts
  told-build_state_alerts live alerts e made =
      let quiet = any-take without_authority 4 _ (
        any-keep without_authority in_force (by_score live)
          (any-sort_by higher without_authority live ∙ known-none live e)) in
      let (alerts', made', same) = told-alerts_of 0 (order_of upper live) quiet in
      let eq : alerts ≡ alerts' = cc in ap (map told) eq ∙ same
