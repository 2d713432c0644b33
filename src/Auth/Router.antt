-- ===== src/Auth/Router.antt =====
-- The ways into and out of Command: `submitSignIn`, `requestSignOut`, the idle watch, `requestRole`,
-- `enter` and `enterCommand`, and `go` of frontend/standalone/src/views.js.
use aapda_sync.Base.{
  ℕ, ◌+◌, ◌-◌, String, Bool, true, false, ◌&&◌, ◌||◌, not, Option, none, some, List, ltb, leb,
  if◌then◌else◌,
}
use aapda_sync.Auth.{
  idle_ms, warn_ms, Role, citizen, gov, Session, locked_out, credential_rejected, sign_out, App,
  audit_log,
}
use aapda_sync.Auth.Verify.{Login, Verdict, granted, locked, bad, unreachable, verify_credential}
use aapda_sync.Auth.Sessions.{grant_session, end_session, signed_in, touch_session, render}
use aapda_sync.Auth.Gate.{open_sign_in}

-- A second submission while one is being verified is ignored.
unfoldable pub sign_in_start : App → Option App
sign_in_start app = if app.busy then none else some (record app { busy = true })

-- `startSessionWatch`
unfoldable pub start_session_watch : App → App
start_session_watch app = record app { watching = true; warn_shown = false }

-- `submitSignIn` behind its `await`, by what the verification says. `finally` frees the form.
unfoldable pub sign_in_end : ℕ → String → Verdict → App → App
sign_in_end now user (granted operator token) app =
    let opened = grant_session now user operator token app in
    let shown = render now (record opened { modal = none; role = gov; view = "map" }) in
    record (start_session_watch shown) { busy = false }
sign_in_end now user (locked seconds) app =
    record (audit_log now "sign-in-failed" (locked_out seconds) (some user) app) { busy = false }
sign_in_end now user bad app =
    record (audit_log now "sign-in-failed" credential_rejected (some user) app) { busy = false }
sign_in_end now user unreachable app =
    record (audit_log now "sign-in-failed" credential_rejected (some user) app) { busy = false }

module _ (derive_key : String → String → List ℕ) (b64_to_bytes : String → List ℕ) where
  -- From the call of `verifyCredential` on; `user` is trimmed and in lower case.
  unfoldable pub sign_in_finish :
      (start end : ℕ) (api : Option Login) (user password : String) (before after : App) → App
  sign_in_finish start end api user password before after =
      let (app, verdict) =
        verify_credential derive_key b64_to_bytes start end api user password before after in
      sign_in_end end user verdict app

-- The sign-out button of the dialog that `requestSignOut` opens.
unfoldable pub confirm_sign_out : ℕ → App → App
confirm_sign_out now app = end_session now "signed out by operator" (record app { modal = none })

-- The warning flag after one round of the watch.
abbrev pub warn_next : ℕ → Session → Bool → Bool
warn_next now s shown =
    (shown || ltb (s.last_activity + (idle_ms - warn_ms)) now)
    && not (ltb now (s.last_activity + (idle_ms - warn_ms)))

-- One round of the watch, every five seconds while it runs.
unfoldable pub watch : ℕ → App → App
watch now app = if not app.watching then app else elim app.session [
  | none ↦ record app { watching = false }
  | some s ↦
      if ltb (s.last_activity + idle_ms) now || leb s.absolute_expiry now
      then end_session now
          (if leb s.absolute_expiry now
            then "the eight-hour session limit was reached"
            else "signed out after 15 minutes of inactivity")
          (record app { watching = false })
      else record app { warn_shown = warn_next now s app.warn_shown }
]

abbrev pub public_home : App → App
public_home app = record app { role = citizen; cz = "home" }

unfoldable pub request_role : ℕ → Role → App → App
request_role now target app =
    let (app', ok) = signed_in now app in
    elim target [
      | citizen ↦
          if ok then record app' { modal = some sign_out } else render now (public_home app')
      | gov ↦
          if ok then render now (record app' { role = gov; view = "map" }) else open_sign_in app'
    ]

-- The landing gate: both of its buttons lead to the public portal.
unfoldable pub enter : ℕ → App → App
enter now app = render now (public_home app)

unfoldable pub enter_command : ℕ → App → App
enter_command now app = open_sign_in (render now (public_home app))

abbrev pub in_command : Role → Bool
in_command gov = true
in_command citizen = false

-- `S.role === 'gov' && !signedIn()` asks for the session only in Command.
unfoldable pub go : ℕ → String → App → App
go now v app =
    let (app', ok) = (if in_command app.role then signed_in now app else (app, true)) in
    if ok
    then render now (record (touch_session now app') { view = v })
    else open_sign_in (render now (record app' { role = citizen; cz = "home"; view = "map" }))

-- `czGo` of frontend/standalone/src/citizen.js.
unfoldable pub cz_go : ℕ → String → App → App
cz_go now v app = render now (record app { cz = v })
