-- ===== src/Auth/Safety/Credentials.antt =====
-- The two handlers that wait for a verified password keep the invariant.
use aapda_sync.Base.{
  ℕ, String, false, Option, none, some, List, ◌≡◌, refl, ap, arith, Option-cases, or_else, inl, inr,
}
use mathlib.Core.Path.{subst}
use aapda_sync.Auth.{
  gov, Detail, Action, Session, App, audit_log, session_opened, role_label, locked_out,
  credential_rejected, reconfirmed, reentry_rejected,
}
use aapda_sync.Auth.Verify.{
  Login, Verdict, Operator, granted, locked, bad, settle, reply, verify_credential,
}
use aapda_sync.Auth.Sessions.{session_of, grant_session}
use aapda_sync.Auth.Gate.{Outcome, run_pending, confirm, step_up_end, submit_step_up, rejected}
use aapda_sync.Auth.Router.{sign_in_start, sign_in_end, sign_in_finish, start_session_watch}
use aapda_sync.Auth.Safety.Invariant.{
  IsSafe, Opened, Closed, still, audit_log-IsSafe, render-IsSafe,
}
use aapda_sync.Auth.Safety.Handlers.{run_action-IsSafe}

module _ (P : Option Session → Type 0) (closed : Closed P) where
  pub sign_in_start-IsSafe : (a b : App) → IsSafe P a → sign_in_start a ≡ some b → IsSafe P b
  unfolding sign_in_start
  sign_in_start-IsSafe a b h e = ground arith

  settle-IsSafe :
      (now : ℕ) (user : String) (v : Verdict) (app : App)
      → IsSafe P app
      → IsSafe P (settle now user v app)
  unfolding settle
  settle-IsSafe now user (granted op token) app h = record {
    opened = h.opened;
    limited = h.limited;
    bounded = h.bounded;
  }
  settle-IsSafe now user bad app h = record {
    opened = h.opened;
    limited = h.limited;
    bounded = h.bounded;
  }
  settle-IsSafe now user Verdict.unreachable app h = h
  settle-IsSafe now user (locked n) app h = h

  grant_session-IsSafe :
      (now : ℕ) (user : String) (operator : Operator) (token : Option String) (app : App)
      → P (some (session_of now user operator token))
      → IsSafe P app
      → IsSafe P (record (grant_session now user operator token app) {
        modal = none;
        role = gov;
        view = "map";
      })
  unfolding grant_session audit_log
  grant_session-IsSafe now user operator token app q h = record {
    opened = tt;
    limited = q;
    bounded =
        (audit_log-IsSafe P closed now app "sign-in" (session_opened (role_label operator.role))
          (some user) h).bounded;
  }

  logged-IsSafe :
      (now : ℕ) (detail : Detail) (user : String) (app : App)
      → IsSafe P app
      → IsSafe P (record (audit_log now "sign-in-failed" detail (some user) app) { busy = false })
  logged-IsSafe now detail user app h =
      let k = audit_log-IsSafe P closed now app "sign-in-failed" detail (some user) h in
      record { opened = k.opened; limited = k.limited; bounded = k.bounded }

  sign_in_end-IsSafe :
      (now : ℕ) (user : String) (v : Verdict) (app : App)
      → ((operator : Operator) (token : Option String)
          → v ≡ granted operator token
          → P (some (session_of now user operator token)))
      → IsSafe P app
      → IsSafe P (sign_in_end now user v app)
  unfolding sign_in_end start_session_watch
  sign_in_end-IsSafe now user (granted op token) app opens h =
      let shown =
        render-IsSafe P closed now
          (record (grant_session now user op token app) { modal = none; role = gov; view = "map" })
          (grant_session-IsSafe now user op token app (opens op token refl) h) in
      record { opened = shown.opened; limited = shown.limited; bounded = shown.bounded }
  sign_in_end-IsSafe now user (locked n) app opens h = logged-IsSafe now (locked_out n) user app h
  sign_in_end-IsSafe now user bad app opens h = logged-IsSafe now credential_rejected user app h
  sign_in_end-IsSafe now user Verdict.unreachable app opens h =
      logged-IsSafe now credential_rejected user app h

  run_pending-IsSafe :
      (now : ℕ) (s : Session) (run : Option Action) (app : App)
      → IsSafe P app
      → IsSafe P (run_pending now s run app).0
  run_pending-IsSafe now s none app h = h
  run_pending-IsSafe now s (some run) app h = run_action-IsSafe P closed now app h s run

  -- Where a handler returns, its store is the one that is named.
  returned :
      {a b : App} {o o' : Outcome}
      → ◌≡◌ {A = Option (App × Outcome)} (some (a, o)) (some (b, o'))
      → IsSafe P a
      → IsSafe P b
  returned {a} {b} e h =
      subst (IsSafe P) (ap (λ (r : Option (App × Outcome)). (or_else r (b, rejected)).0) e) h

  rejected-IsSafe :
      (now : ℕ) (app : App)
      → IsSafe P app
      → IsSafe P (audit_log now "step-up-failed" reentry_rejected none app)
  rejected-IsSafe now app h =
      audit_log-IsSafe P closed now app "step-up-failed" reentry_rejected none h

  confirm-IsSafe :
      (now : ℕ) (s : Option Session) (app b : App) (o : Outcome)
      → app.session ≡ s
      → IsSafe P app
      → confirm now s app ≡ some (b, o)
      → IsSafe P b
  unfolding confirm
  confirm-IsSafe now none app b o same h e = cc
  confirm-IsSafe now (some s) app b o same h e =
      let s' = record s { step_up_at = now } in
      let open_now : Opened app.role (some s) = subst (Opened app.role) same h.opened in
      let limit : P (some s) = subst P same h.limited in
      let base : IsSafe P (record app { session = some s' }) = record {
        opened = still app.role s s' open_now;
        limited = closed.at_step_up s now limit;
        bounded = h.bounded;
      } in
      let logged =
        audit_log-IsSafe P closed now (record app { session = some s' }) "step-up" reconfirmed none
          base in
      let app' =
        record (audit_log now "step-up" reconfirmed none (record app { session = some s' })) {
          modal = none;
          step_up_run = none;
        } in
      returned e (
        run_pending-IsSafe now s' app.step_up_run app'
          (record { opened = logged.opened; limited = logged.limited; bounded = logged.bounded }))

  step_up_end-IsSafe :
      (now : ℕ) (v : Verdict) (app b : App) (o : Outcome)
      → IsSafe P app
      → step_up_end now v app ≡ some (b, o)
      → IsSafe P b
  unfolding step_up_end
  step_up_end-IsSafe now (granted op token) app b o h e =
      confirm-IsSafe now app.session app b o refl h e
  step_up_end-IsSafe now bad app b o h e = returned e (rejected-IsSafe now app h)
  step_up_end-IsSafe now Verdict.unreachable app b o h e = returned e (rejected-IsSafe now app h)
  step_up_end-IsSafe now (locked n) app b o h e = returned e (rejected-IsSafe now app h)

  module _ (derive_key : String → String → List ℕ) (b64_to_bytes : String → List ℕ) where
    verify_credential-IsSafe :
        (start end : ℕ) (api : Option Login) (user password : String) (before after : App)
        → IsSafe P after
        → IsSafe P
            (verify_credential derive_key b64_to_bytes start end api user password before after).0
    unfolding verify_credential
    verify_credential-IsSafe start end api user password before after h =
        let settled =
          settle-IsSafe end user (reply derive_key b64_to_bytes api user password) after h in
        ground (arith, settled)

    pub sign_in_finish-IsSafe :
        (start end : ℕ) (api : Option Login) (user password : String) (before after : App)
        → ((operator : Operator) (token : Option String)
            → (verify_credential derive_key b64_to_bytes start end api user password before after).1
              ≡ granted operator token
            → P (some (session_of end user operator token)))
        → IsSafe P after
        → IsSafe P (sign_in_finish derive_key b64_to_bytes start end api user password before after)
    unfolding sign_in_finish
    sign_in_finish-IsSafe start end api user password before after opens h =
        sign_in_end-IsSafe end user _ _ opens
          (verify_credential-IsSafe start end api user password before after h)

    pub submit_step_up-IsSafe :
        (start end : ℕ) (api : Option Login) (password : String) (before after b : App)
        (o : Outcome)
        → IsSafe P after
        → submit_step_up derive_key b64_to_bytes start end api password before after ≡ some (b, o)
        → IsSafe P b
    unfolding submit_step_up
    submit_step_up-IsSafe start end api password before after b o h e =
        elim (Option-cases before.session) [
          | inl absent ↦ cc (rw (absent, submit_step_up) at e)
          | inr (s, present) ↦
              step_up_end-IsSafe end _ _ b o
                (verify_credential-IsSafe start end api s.user password before after h)
                (rw (present, submit_step_up) at e)
        ]
