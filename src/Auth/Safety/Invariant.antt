-- ===== src/Auth/Safety/Invariant.antt =====
-- The invariant of the store, kept by every handler.
use aapda_sync.Base.{
  ℕ, ◌≤◌, String, Bool, true, false, Option, none, some, ◌≡◌, inl, inr, arith, length,
  if◌then◌else◌, Option-cases,
}
use aapda_sync.Auth.{Role, citizen, gov, Session, Detail, because, App, audit_log, length-audit_log}
use aapda_sync.Auth.Sessions.{paint, end_session, signed_in, touch_session, render, log_sign_out}
use aapda_sync.Auth.Sessions.Expiry.{IsLive-signed_in, signed_in-true}

-- In Command there is a session.
abbrev pub Opened : Role → Option Session → Type 0
Opened gov none = ⊥
Opened gov (some s) = Unit
Opened citizen s = Unit

pub still : (r : Role) (s t : Session) → Opened r (some s) → Opened r (some t)
still citizen s t o = tt
still gov s t o = tt

-- A statement about the session that survives the end of the session, activity and a confirmed
-- password.
pub record Closed (P : Option Session → Type 0) : Type 0 where
  pub at_end : P none
  pub at_touch : (s : Session) (now : ℕ) → P (some s) → P (some (record s { last_activity = now }))
  pub at_step_up : (s : Session) (now : ℕ) → P (some s) → P (some (record s { step_up_at = now }))

pub record IsSafe (P : Option Session → Type 0) (app : App) : Type 0 where
  pub opened : Opened app.role app.session
  pub limited : P app.session
  pub bounded : length app.audit ≤ 200

module _ (P : Option Session → Type 0) (closed : Closed P) where
  paint-IsSafe : (app : App) → IsSafe P app → IsSafe P (paint app)
  unfolding paint
  paint-IsSafe app h = ground arith

  module _ (now : ℕ) (app : App) where
    pub audit_log-IsSafe :
        (kind : String) (detail : Detail) (user : Option String)
        → IsSafe P app
        → IsSafe P (audit_log now kind detail user app)
    unfolding audit_log
    audit_log-IsSafe kind detail user h = record {
      opened = h.opened;
      limited = h.limited;
      bounded = length-audit_log now kind detail user app h.bounded;
    }

    pub touch_session-IsSafe : IsSafe P app → IsSafe P (touch_session now app)
    unfolding touch_session
    touch_session-IsSafe h = touched app.session h.opened h.limited
      where
        touched :
            (o : Option Session)
            → Opened app.role o
            → P o
            → IsSafe P (elim o [
              | none ↦ app
              | some s ↦ record app { session = some (record s { last_activity = now }) }
            ])
        touched none k q = h
        touched (some s) k q = record {
          opened = still app.role s _ k;
          limited = closed.at_touch s now q;
          bounded = h.bounded;
        }

    log_sign_out-bounded :
        (why : String) → IsSafe P app → length (log_sign_out now why app).audit ≤ 200
    unfolding audit_log
    log_sign_out-bounded why h = elim (Option-cases app.session) [
      | inl absent ↦ rw absent h.bounded
      | inr (s, present) ↦
          rw present (length-audit_log now "sign-out" (because why) (some s.user) app h.bounded)
    ]

    pub end_session-IsSafe : (why : String) → IsSafe P app → IsSafe P (end_session now why app)
    unfolding end_session paint
    end_session-IsSafe why h = ground (arith, log_sign_out-bounded why h, closed.at_end)

    signed_in-IsSafe : IsSafe P app → IsSafe P (signed_in now app).0
    unfolding signed_in
    signed_in-IsSafe h = ground (
      arith,
      end_session-IsSafe "absolute session limit reached" h,
      end_session-IsSafe "idle timeout" h,
    )

  guarded-IsSafe :
      (app : App) (ok : Bool)
      → IsSafe P app
      → IsSafe P (paint (if ok then app else record app { role = citizen; cz = "home" }))
  guarded-IsSafe app true h = paint-IsSafe app h
  guarded-IsSafe app false h =
      paint-IsSafe (record app { role = citizen; cz = "home" })
        (record { opened = tt; limited = h.limited; bounded = h.bounded })

  pub public_IsSafe :
      (app : App)
      → IsSafe P app
      → (cz view : String) → IsSafe P (record app { role = citizen; cz = cz; view = view })
  public_IsSafe app h cz view = record { opened = tt; limited = h.limited; bounded = h.bounded }

  module _ (now : ℕ) (app : App) (h : IsSafe P app) where
    pub checked : IsSafe P (signed_in now app).0
    checked = signed_in-IsSafe now app h

    pub render-IsSafe : IsSafe P (render now app)
    unfolding render
    render-IsSafe = ground (
      arith,
      paint-IsSafe app h,
      guarded-IsSafe (signed_in now app).0 (signed_in now app).1 checked,
    )

    -- A check that passes leaves a session.
    pub Opened-signed_in : (signed_in now app).1 ≡ true → Opened gov (signed_in now app).0.session
    Opened-signed_in ok =
        let (s, present, live) = IsLive-signed_in now app ok in
        let same = signed_in-true now app ok in rw (same, present) tt
