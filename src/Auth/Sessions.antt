-- ===== src/Auth/Sessions.antt =====
-- The life of a session: `grantSession`, `signedIn`, `can`, `endSession`, `touchSession`, and
-- `render` of frontend/standalone/src/views.js as far as it writes to the store.
pub mod Expiry
use aapda_sync.Base.{
  ℕ, ◌+◌, String, Bool, true, false, ◌&&◌, not, Option, none, some, [], ◌∷◌, List, ltb, any, str_eq,
  or_else, if◌then◌else◌,
}
use aapda_sync.Auth.{
  idle_ms, absolute_ms, Role, citizen, gov, Session, session_opened, because, App, role_label,
  audit_log,
}
use aapda_sync.Auth.Verify.{Operator}

-- `token` is null for the local directory.
abbrev pub session_of : ℕ → String → Operator → Option String → Session
session_of now user operator token = record {
  user = user;
  name = operator.name;
  role = operator.role;
  district = operator.district;
  scope = operator.scope;
  can = or_else operator.can ("read_operational" ∷ []);
  token = token;
  issued_at = now;
  absolute_expiry = now + absolute_ms;
  last_activity = now;
  step_up_at = now;
}

unfoldable pub grant_session : ℕ → String → Operator → Option String → App → App
grant_session now user operator token app =
    audit_log now "sign-in" (session_opened (role_label operator.role)) (some user)
      (record app { session = some (session_of now user operator token) })

is_null {ℓ} : {A : Type ℓ} → Option A → Bool
is_null none = true
is_null (some a) = false

-- The screens of `render`, without its check of the session: the first public landing page is framed
-- on the reader's state, and the command map asks for a new framing of the next one.
unfoldable pub paint : App → App
unfolding is_null
paint app = elim app.role [
  | citizen ↦
      if str_eq app.cz "home" && is_null app.map_focus && not app.cz_framed
      then record app { cz_framed = true; map_focus = some (or_else app.focus "ut") }
      else app
  | gov ↦ if str_eq app.view "map" then record app { cz_framed = false } else app
]

-- Out of Command: the public landing page, with the drawer and the dialog closed. The `render` at
-- its end finds the role `citizen`, so it does not ask `signedIn` again.
abbrev pub leave_command : App → App
leave_command app = elim app.role [
  | gov ↦ paint (record app { role = citizen; cz = "home"; view = "map"; dw = none; modal = none })
  | citizen ↦ app
]

abbrev pub log_sign_out : ℕ → String → App → App
log_sign_out now why app = elim app.session [
  | some s ↦ audit_log now "sign-out" (because why) (some s.user) app
  | none ↦ app
]

unfoldable pub end_session : ℕ → String → App → App
end_session now why app = leave_command (record (log_sign_out now why app) { session = none })

-- Reading the session may end it.
unfoldable pub signed_in : ℕ → App → App × Bool
signed_in now app = elim app.session [
  | none ↦ (app, false)
  | some s ↦
      if ltb s.absolute_expiry now
      then (end_session now "absolute session limit reached" app, false)
      else if ltb (s.last_activity + idle_ms) now
      then (end_session now "idle timeout" app, false)
      else (app, true)
]

-- `AUTH.session.can.includes(permission)`
abbrev pub holds : String → Option Session → Bool
holds permission none = false
holds permission (some s) = any (str_eq permission) s.can

unfoldable pub can : ℕ → String → App → App × Bool
can now permission app =
    let (app', ok) = signed_in now app in (app', ok && holds permission app'.session)

unfoldable pub touch_session : ℕ → App → App
touch_session now app = elim app.session [
  | none ↦ app
  | some s ↦ record app { session = some (record s { last_activity = now }) }
]

-- In Command, the check of the session comes first.
unfoldable pub render : ℕ → App → App
render now app = elim app.role [
  | citizen ↦ paint app
  | gov ↦
      let (app', ok) = signed_in now app in
      paint (if ok then app' else record app' { role = citizen; cz = "home" })
]
