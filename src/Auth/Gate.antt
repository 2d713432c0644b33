-- ===== src/Auth/Gate.antt =====
-- Privileged writes: `requirePrivilege`, `stepUpPrompt` and `submitStepUp`, and the closure that
-- `saveShelter` of frontend/standalone/src/actions.js passes to them.
pub mod Privilege
pub mod StepUp
use Prim.Native.String
use aapda_sync.Base.{
  ℕ, ◌+◌, String, Bool, true, false, not, Option, none, some, List, ltb, any, str_eq, if◌then◌else◌,
}
use aapda_sync.Auth.{
  step_up_ms, Session, outside_scope, updated, refused, reentry_rejected, reconfirmed, sign_in,
  step_up, Action, save_shelter, App, audit_log,
}
use aapda_sync.Auth.Verify.{Login, Verdict, granted, locked, bad, unreachable, verify_credential}
use aapda_sync.Auth.Sessions.{signed_in, touch_session, holds, render}

-- How a request for a privileged action ends: the sign-in dialog, a logged refusal, the dialog that
-- asks for the password again, a password that is not accepted, or the run of the action with the
-- shelter that it writes, if it is within the operator's scope.
pub data Outcome : Type 0 where
  asked_sign_in not_permitted prompted rejected : Outcome
  ran : (written : Option String) → Outcome

-- No caller passes `openSignIn` something to run afterwards.
unfoldable pub open_sign_in : App → App
open_sign_in app = record app { modal = some sign_in }

-- `sc && !sc.includes(id)`
abbrev pub out_of_scope : String → Option (List String) → Bool
out_of_scope id none = false
out_of_scope id (some sc) = not (any (str_eq id) sc)

-- `doSaveShelter(id)`, with the shelter that it writes: for an id that no shelter has it returns at once;
-- otherwise it ends by closing the drawer and painting. What it does to the shelter is in the module
-- Shelters.
abbrev pub do_save : ℕ → String → (known : Bool) → App → App × Option String
do_save now id true app = (render now (record app { dw = none }), some id)
do_save now id false app = (app, none)

abbrev pub is_known : String → App → Bool
is_known id app = any (str_eq id) app.shelters

-- The closure of `saveShelter(id)`, at the session `s`. The audit names the write in either case.
unfoldable pub run_action : ℕ → Session → Action → App → App × Outcome
run_action now s (save_shelter id) app =
    let saved = do_save now id (is_known id app) app in
    if out_of_scope id s.scope
    then (audit_log now "denied" (outside_scope id) none app, ran none)
    else (audit_log now "write" (updated id) none saved.0, ran saved.1)

abbrev pub step_up_prompt : Action → App → App
step_up_prompt run app = record app { step_up_run = some run; modal = some step_up }

-- The part of `requirePrivilege` behind its first test. After `touchSession` there is a session.
unfoldable pub with_session :
    ℕ → (permission label : String) → Action → Option Session → App → App × Outcome
with_session now permission label run none app = (app, asked_sign_in)
with_session now permission label run (some s) app =
    if not (holds permission (some s))
    then (audit_log now "denied" (refused label s.role permission) none app, not_permitted)
    else if ltb now (s.step_up_at + step_up_ms)
    then run_action now s run app
    else (step_up_prompt run app, prompted)

unfoldable pub require_privilege : ℕ → (permission label : String) → Action → App → App × Outcome
require_privilege now permission label run app =
    let (app', ok) = signed_in now app in
    let touched = touch_session now app' in
    if ok
    then with_session now permission label run touched.session touched
    else (open_sign_in app', asked_sign_in)

unfoldable pub save_shelter_click : ℕ → String → App → App × Outcome
save_shelter_click now id app =
    require_privilege now "update_shelter_status" (String.◌++◌ "Updating " id) (save_shelter id) app

-- `run = AUTH.stepUpRun; AUTH.stepUpRun = null; if (run) run()`
abbrev pub run_pending : ℕ → Session → Option Action → App → App × Outcome
run_pending now s none app = (app, ran none)
run_pending now s (some run) app = run_action now s run app

-- The password is right: `none` is the TypeError of `AUTH.session.stepUpAt` with no session.
unfoldable pub confirm : ℕ → Option Session → App → Option (App × Outcome)
confirm now none app = none
confirm now (some s) app =
    let s' = record s { step_up_at = now } in
    let logged = audit_log now "step-up" reconfirmed none (record app { session = some s' }) in
    some (run_pending now s' app.step_up_run (record logged { modal = none; step_up_run = none }))

-- `submitStepUp` behind its `await`.
unfoldable pub step_up_end : ℕ → Verdict → App → Option (App × Outcome)
step_up_end now (granted operator token) app = confirm now app.session app
step_up_end now bad app = some (audit_log now "step-up-failed" reentry_rejected none app, rejected)
step_up_end now unreachable app =
    some (audit_log now "step-up-failed" reentry_rejected none app, rejected)
step_up_end now (locked seconds) app =
    some (audit_log now "step-up-failed" reentry_rejected none app, rejected)

module _ (derive_key : String → String → List ℕ) (b64_to_bytes : String → List ℕ) where
  -- `before` is the store at the click, `after` the store when the answer is there; `none` is a
  -- TypeError, from `AUTH.session.user` or from `AUTH.session.stepUpAt`.
  unfoldable pub submit_step_up :
      (start end : ℕ) (api : Option Login) (password : String) (before after : App)
      → Option (App × Outcome)
  submit_step_up start end api password before after = elim before.session [
    | none ↦ none
    | some s ↦
        let (app, verdict) =
          verify_credential derive_key b64_to_bytes start end api s.user password before after in
        step_up_end end verdict app
  ]
