-- ===== src/Auth/Sessions/Expiry.antt =====
-- When a session counts, and that nothing of it outlasts its end.
use aapda_sync.Base.{
  ℕ, ◌+◌, ◌≤◌, ◌<◌, String, Bool, true, false, none, some, ◌≡◌, ◌≢◌, ◌↔◌, inl, inr, ap, arith,
  Option-cases,
}
use aapda_sync.Auth.{idle_ms, citizen, gov, Session, App, audit_log}
use aapda_sync.Auth.Sessions.{paint, end_session, signed_in, touch_session, render}

-- The session is inside both of its limits.
pub record IsLive (now : ℕ) (s : Session) : Type 0 where
  pub absolute : now ≤ s.absolute_expiry
  pub idle : now ≤ s.last_activity + idle_ms

session-paint : (app : App) → (paint app).session ≡ app.session
unfolding paint
session-paint app = ground arith

role-paint : (app : App) → (paint app).role ≡ app.role
unfolding paint
role-paint app = ground arith

pub session-end_session :
    (now : ℕ) (why : String) (app : App) → (end_session now why app).session ≡ none
unfolding end_session paint
session-end_session now why app = ground arith

pub role-end_session :
    (now : ℕ) (why : String) (app : App) → (end_session now why app).role ≡ citizen
unfolding end_session audit_log paint
role-end_session now why app = ground arith

module _ (now : ℕ) (app : App) where
  pub signed_in-IsLive :
      (s : Session) → app.session ≡ some s → IsLive now s → signed_in now app ≡ (app, true)
  unfolding signed_in
  signed_in-IsLive s e h = ground arith

  pub IsLive-signed_in :
      (signed_in now app).1 ≡ true → (s : Session) × (app.session ≡ some s) × IsLive now s
  unfolding signed_in
  IsLive-signed_in e = elim (Option-cases app.session) [
    | inl absent ↦ cc (rw (absent, signed_in) at e)
    | inr (s, present) ↦ (s, present, record { absolute = ground arith; idle = ground arith })
  ]

  pub signed_in-true : (signed_in now app).1 ≡ true → (signed_in now app).0 ≡ app
  signed_in-true e =
      let (s, present, live) = IsLive-signed_in e in
      ap (λ (r : App × Bool). r.0) (signed_in-IsLive s present live)

  signed_in-false :
      (signed_in now app).1 ≡ false
      → ((signed_in now app).0.session ≡ none)
        × ((app.role ≡ gov → app.session ≢ none) → (signed_in now app).0.role ≡ citizen)
  unfolding signed_in
  signed_in-false e = ground (
    arith,
    session-end_session now "absolute session limit reached" app,
    session-end_session now "idle timeout" app,
    role-end_session now "absolute session limit reached" app,
    role-end_session now "idle timeout" app,
  )

  -- `signedIn` is true exactly for a session inside both limits.
  pub signed_in_iff :
      ((signed_in now app).1 ≡ true) ↔ ((s : Session) × (app.session ≡ some s) × IsLive now s)
  signed_in_iff = (
    IsLive-signed_in,
    λ (s, present, live). ap (λ (r : App × Bool). r.1) (signed_in-IsLive s present live),
  )

  -- Where `signedIn` is false it leaves no session; and where the app was in Command with one, it
  -- is no longer in Command.
  pub signed_in-ends :
      app.session ≢ none
      → (signed_in now app).1 ≡ false
      → ((signed_in now app).0.session ≡ none) × ((signed_in now app).0.role ≡ citizen)
  signed_in-ends had e = let h = signed_in-false e in (h.0, h.1 (λ _. had))

-- Painting keeps a live session.
pub session-render :
    (now : ℕ) (app : App) (s : Session)
    → app.session ≡ some s
    → IsLive now s
    → (render now app).session ≡ some s
unfolding render paint
session-render now app s e live = ground (arith, signed_in-IsLive now app s e live)

-- `touchSession` does not ask whether the session is still live: a press of a key or of a pointer, or a
-- turn of the wheel, on a session that has been idle beyond its limit, but that no check has ended,
-- makes it count again: until fifteen minutes after that touch or until the absolute limit, whichever
-- comes first, and no longer.
pub signed_in-touch_session :
    (now t : ℕ) (app : App) (s : Session)
    → app.session ≡ some s
    → s.last_activity + idle_ms < now
    → now ≤ t
    → ((signed_in now app).1 ≡ false)
      × (((signed_in t (touch_session now app)).1 ≡ true)
          ↔ ((t ≤ now + idle_ms) × (t ≤ s.absolute_expiry)))
unfolding signed_in touch_session
signed_in-touch_session now t app s e idle later =
    (ground arith, (λ k. (ground arith, ground arith), λ (k, k'). ground arith))
