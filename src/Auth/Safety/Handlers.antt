-- ===== src/Auth/Safety/Handlers.antt =====
-- Each handler keeps the invariant.
use aapda_sync.Base.{
  ℕ, ◌+◌, ltb, not, String, Bool, true, false, Option, none, some, ◌≡◌, refl, arith, if◌then◌else◌,
}
use aapda_sync.Auth.{
  Role, citizen, gov, Session, Action, save_shelter, App, updated, outside_scope, refused,
  step_up_ms,
}
use aapda_sync.Auth.Sessions.{signed_in, touch_session, render, holds}
use aapda_sync.Auth.Gate.{
  Outcome, open_sign_in, out_of_scope, do_save, is_known, run_action, with_session,
  require_privilege,
}
use aapda_sync.Auth.Router.{
  confirm_sign_out, watch, request_role, enter, enter_command, go, cz_go, public_home,
}
use aapda_sync.Auth.Safety.Invariant.{
  IsSafe, Closed, audit_log-IsSafe, touch_session-IsSafe, end_session-IsSafe, render-IsSafe,
  checked, Opened-signed_in, public_IsSafe,
}

module _ (P : Option Session → Type 0) (closed : Closed P) where
  pub either :
      (b : Bool) (x y : App)
      → (b ≡ true → IsSafe P x)
      → (b ≡ false → IsSafe P y)
      → IsSafe P (if b then x else y)
  either true x y p q = p refl
  either false x y p q = q refl

  pub either_pair :
      (b : Bool) (x y : App × Outcome)
      → IsSafe P x.0
      → IsSafe P y.0
      → IsSafe P (if b then x else y).0
  either_pair true x y p q = p
  either_pair false x y p q = q

  -- A change of the other fields.
  also :
      (app : App) (busy watching warn_shown : Bool)
      → IsSafe P app
      → IsSafe P (record app { busy = busy; watching = watching; warn_shown = warn_shown })
  also app busy watching warn_shown h = record {
    opened = h.opened;
    limited = h.limited;
    bounded = h.bounded;
  }

  module _ (now : ℕ) (app : App) (h : IsSafe P app) where
    pub confirm_sign_out-IsSafe : IsSafe P (confirm_sign_out now app)
    unfolding confirm_sign_out
    confirm_sign_out-IsSafe =
        end_session-IsSafe P closed now (record app { modal = none }) "signed out by operator"
          (record { opened = h.opened; limited = h.limited; bounded = h.bounded })

    pub watch-IsSafe : IsSafe P (watch now app)
    unfolding watch
    watch-IsSafe =
        let stopped = also app app.busy false app.warn_shown h in
        ground (
          arith,
          end_session-IsSafe P closed now (record app { watching = false })
              "the eight-hour session limit was reached" stopped,
          end_session-IsSafe P closed now (record app { watching = false })
              "signed out after 15 minutes of inactivity" stopped,
        )

    pub enter-IsSafe : IsSafe P (enter now app)
    unfolding enter
    enter-IsSafe =
        render-IsSafe P closed now (public_home app) (public_IsSafe P closed app h "home" app.view)

    pub enter_command-IsSafe : IsSafe P (enter_command now app)
    unfolding enter_command open_sign_in enter
    enter_command-IsSafe = record {
      opened = enter-IsSafe.opened;
      limited = enter-IsSafe.limited;
      bounded = enter-IsSafe.bounded;
    }

    pub cz_go-IsSafe : (v : String) → IsSafe P (cz_go now v app)
    unfolding cz_go
    cz_go-IsSafe v =
        render-IsSafe P closed now (record app { cz = v })
          (record { opened = h.opened; limited = h.limited; bounded = h.bounded })

    -- What follows a check of the session.
    abbrev after_check : App
    after_check = (signed_in now app).0

    safe : IsSafe P after_check
    safe = checked P closed now app h

    pub request_role-IsSafe : (target : Role) → IsSafe P (request_role now target app)
    unfolding request_role open_sign_in
    request_role-IsSafe citizen =
        either (signed_in now app).1 _ _
          (λ _. record { opened = safe.opened; limited = safe.limited; bounded = safe.bounded })
          (λ _.
            render-IsSafe P closed now (public_home after_check)
              (public_IsSafe P closed after_check safe "home" after_check.view))
    request_role-IsSafe gov =
        either (signed_in now app).1 _ _
          (λ ok.
            render-IsSafe P closed now (record after_check { role = gov; view = "map" })
              (record {
                opened = Opened-signed_in P closed now app h ok;
                limited = safe.limited;
                bounded = safe.bounded;
              }))
          (λ _. record { opened = safe.opened; limited = safe.limited; bounded = safe.bounded })

    do_save-IsSafe : (id : String) (known : Bool) → IsSafe P (do_save now id known app).0
    do_save-IsSafe id true =
        render-IsSafe P closed now (record app { dw = none })
          (record { opened = h.opened; limited = h.limited; bounded = h.bounded })
    do_save-IsSafe id false = h

    pub run_action-IsSafe : (s : Session) (run : Action) → IsSafe P (run_action now s run app).0
    unfolding run_action
    run_action-IsSafe s (save_shelter id) =
        let saved = do_save now id (is_known id app) app in
        either_pair (out_of_scope id s.scope) _ _
          (audit_log-IsSafe P closed now app "denied" (outside_scope id) none h)
          (audit_log-IsSafe P closed now saved.0 "write" (updated id) none
            (do_save-IsSafe id (is_known id app)))

  module _ (now : ℕ) (app : App) (h : IsSafe P app) where
    with_session-IsSafe :
        (permission label : String) (run : Action) (s : Option Session)
        → IsSafe P (with_session now permission label run s app).0
    unfolding with_session
    with_session-IsSafe permission label run none = h
    with_session-IsSafe permission label run (some s) =
        either_pair (not (holds permission (some s))) _ _
          (audit_log-IsSafe P closed now app "denied" (refused label s.role permission) none h)
          (either_pair (ltb now (s.step_up_at + step_up_ms)) _ _ (run_action-IsSafe now app h s run)
            (record { opened = h.opened; limited = h.limited; bounded = h.bounded }))

  module _ (now : ℕ) (app : App) (h : IsSafe P app) where
    pub require_privilege-IsSafe :
        (permission label : String) (run : Action)
        → IsSafe P (require_privilege now permission label run app).0
    unfolding require_privilege open_sign_in
    require_privilege-IsSafe permission label run =
        let found = checked P closed now app h in
        let touched = touch_session now (signed_in now app).0 in
        either_pair (signed_in now app).1 _ _
          (with_session-IsSafe now touched
            (touch_session-IsSafe P closed now (signed_in now app).0 found) permission label run
            touched.session)
          (record { opened = found.opened; limited = found.limited; bounded = found.bounded })

    go_on :
        (app' : App) (ok : Bool) (v : String)
        → IsSafe P app'
        → IsSafe P (
            if ok
            then render now (record (touch_session now app') { view = v })
            else open_sign_in
                (render now (record app' { role = citizen; cz = "home"; view = "map" })))
    unfolding open_sign_in
    go_on app' true v k =
        let t = touch_session-IsSafe P closed now app' k in
        render-IsSafe P closed now (record (touch_session now app') { view = v })
          (record { opened = t.opened; limited = t.limited; bounded = t.bounded })
    go_on app' false v k =
        let shown =
          render-IsSafe P closed now (record app' { role = citizen; cz = "home"; view = "map" })
            (public_IsSafe P closed app' k "home" "map") in
        record { opened = shown.opened; limited = shown.limited; bounded = shown.bounded }

    pub go-IsSafe : (v : String) → IsSafe P (go now v app)
    unfolding go
    go-IsSafe v = ground (
      arith,
      go_on (signed_in now app).0 (signed_in now app).1 v (checked P closed now app h),
      go_on app true v h,
    )
