-- ===== src/Auth/Gate/Privilege.antt =====
-- The privilege gate lets an action run only for who may run it, and says which branch it takes.
use Prim.Native.String
use aapda_sync.Base.{
  ℕ, ◌+◌, ◌≤◌, ◌<◌, String, true, false, Option, none, some, ◌≡◌, inl, inr, refl, ap, ◌∙◌, arith,
  Bool-cases, get_elem?,
}
use aapda_sync.Auth.{
  step_up_ms, Session, Entry, updated, Action, save_shelter, App, newest-audit_log, actor,
}
use aapda_sync.Auth.Sessions.{signed_in, touch_session, holds, render}
use aapda_sync.Auth.Sessions.Expiry.{IsLive, session-render, IsLive-signed_in, signed_in-IsLive}
use aapda_sync.Auth.Gate.{
  Outcome, asked_sign_in, not_permitted, prompted, ran, open_sign_in, out_of_scope, is_known,
  run_action, with_session, require_privilege, save_shelter_click,
}

abbrev pub touched : ℕ → Session → Session
touched now s = record s { last_activity = now }

module _ (now : ℕ) (permission label : String) (run : Action) (app : App) where
  with_session_cases :
      (s : Session) (a : App)
      → (holds permission (some s) ≡ false
          → (with_session now permission label run (some s) a).1 ≡ not_permitted)
        × (holds permission (some s) ≡ true
            → (now < s.step_up_at + step_up_ms
                → with_session now permission label run (some s) a ≡ run_action now s run a)
              × (s.step_up_at + step_up_ms ≤ now
                  → ((with_session now permission label run (some s) a).1 ≡ prompted)
                    × ((with_session now permission label run (some s) a).0.step_up_run
                        ≡ some run)))
  unfolding with_session
  with_session_cases s a =
      (λ e. ground arith, λ e. (λ h. ground arith, λ h. (ground arith, ground arith)))

  abbrev request : App × Outcome
  request = require_privilege now permission label run app

  require_privilege-live :
      (s : Session)
      → app.session ≡ some s
      → IsLive now s
      → request
        ≡ with_session now permission label run
            (some (touched now s))
            (record app { session = some (touched now s) })
  unfolding require_privilege touch_session
  require_privilege-live s e live = rw (signed_in-IsLive now app s e live, e)

  require_privilege-signed_out :
      (signed_in now app).1 ≡ false → request ≡ (open_sign_in (signed_in now app).0, asked_sign_in)
  unfolding require_privilege
  require_privilege-signed_out e = ground arith

  -- The gate has four ends. Without a live session it asks for a sign-in. With one, it refuses a
  -- permission that the session does not hold; it runs the action if the password was entered less
  -- than ten minutes ago; otherwise it asks for the password and keeps the action for later.
  pub require_privilege_cases :
      ((signed_in now app).1 ≡ false → request.1 ≡ asked_sign_in)
      × ((s : Session)
          → app.session ≡ some s
          → IsLive now s
          → (holds permission (some s) ≡ false → request.1 ≡ not_permitted)
            × (holds permission (some s) ≡ true
                → (now < s.step_up_at + step_up_ms
                    → request
                      ≡ run_action now
                          (touched now s)
                          run
                          (record app { session = some (touched now s) }))
                  × (s.step_up_at + step_up_ms ≤ now
                      → (request.1 ≡ prompted) × (request.0.step_up_run ≡ some run))))
  require_privilege_cases = (
    λ e. ap (λ (r : App × Outcome). r.1) (require_privilege-signed_out e),
    λ s e live.
        rw (require_privilege-live s e live)
          (with_session_cases (touched now s) (record app { session = some (touched now s) })),
  )

-- In the audit, the newest entry is the record of this write by this user.
abbrev pub LogsWrite : ℕ → String → Session → App → Type 0
LogsWrite now id s app =
    get_elem? app.audit 0
    ≡ some (record { at = now; kind = "write"; detail = updated id; user = s.user })

abbrev written_by : ℕ → String → Option Session → Option Entry
written_by now id s =
    some (record { at = now; kind = "write"; detail = updated id; user = actor none s })

LogsWrite-run_action :
    (now : ℕ) (id written : String) (s : Session) (app : App)
    → app.session ≡ some s
    → IsLive now s
    → (run_action now s (save_shelter id) app).1 ≡ ran (some written)
    → (written ≡ id)
      × (out_of_scope id s.scope ≡ false)
      × LogsWrite now id s (run_action now s (save_shelter id) app).0
unfolding run_action
LogsWrite-run_action now id written s app e live w = elim (Bool-cases (out_of_scope id s.scope)) [
  | inl out ↦ cc (rw (out, run_action) at w)
  | inr within ↦ elim (Bool-cases (is_known id app)) [
    | inr unknown ↦ cc (rw (within, unknown, run_action) at w)
    | inl known ↦
        (let kept = session-render now (record app { dw = none }) s e live in
          let top =
            newest-audit_log now "write" (updated id) none
              (render now (record app { dw = none })) in
          (
            cc (rw (within, known, run_action) at w),
            within,
            rw (within, known, run_action) (top ∙ ap (written_by now id) kept),
          ))
  ]
]

with_session-ran :
    (now : ℕ) (permission label : String) (run : Action) (s : Session) (app : App)
    (written : Option String)
    → (with_session now permission label run (some s) app).1 ≡ ran written
    → (holds permission (some s) ≡ true)
      × (now < s.step_up_at + step_up_ms)
      × (with_session now permission label run (some s) app ≡ run_action now s run app)
unfolding with_session
with_session-ran now permission label run s app written e =
    (ground arith, ground arith, ground arith)

module _ (now : ℕ) (id : String) (app : App) where
  -- A click on "save" of a shelter writes at once only that shelter, and only for an operator with a
  -- live session that holds the permission, whose password was entered less than ten minutes ago and
  -- whose scope, if there is one, names the shelter; and the write is the newest entry of the audit,
  -- under that operator's name. What a dialog for the password writes later is not covered.
  pub save_shelter_click-written :
      (written : String)
      → (save_shelter_click now id app).1 ≡ ran (some written)
      → (s : Session) × (app.session ≡ some s)
        × IsLive now s
        × (holds "update_shelter_status" (some s) ≡ true)
        × (now < s.step_up_at + step_up_ms)
        × (written ≡ id)
        × (out_of_scope id s.scope ≡ false)
        × LogsWrite now id s (save_shelter_click now id app).0
  unfolding save_shelter_click
  save_shelter_click-written written e = elim (Bool-cases (signed_in now app).1) [
    | inr out ↦ cc (
        require_privilege-signed_out now "update_shelter_status" (String.◌++◌ "Updating " id)
          (save_shelter id) app out)
    | inl ok ↦
        let (s, present, live) = IsLive-signed_in now app ok in
        let start =
          require_privilege-live now "update_shelter_status" (String.◌++◌ "Updating " id)
            (save_shelter id) app s present live in
        let (held, recent, same) =
          with_session-ran now "update_shelter_status" (String.◌++◌ "Updating " id)
            (save_shelter id) (touched now s) (record app { session = some (touched now s) })
            (some written) (rw start at e) in
        let live' : IsLive now (touched now s) = record {
          absolute = live.absolute;
          idle = omega arith;
        } in
        let (which, within, logged) =
          LogsWrite-run_action now id written (touched now s)
            (record app { session = some (touched now s) }) refl live' (rw (start, same) at e) in
        (s, present, live, held, recent, which, within, rw (start, same) logged)
  ]
