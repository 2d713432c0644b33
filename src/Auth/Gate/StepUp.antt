-- ===== src/Auth/Gate/StepUp.antt =====
-- `submitStepUp`: what a confirmed password writes.
use mathlib.Core.Path.{subst}
use aapda_sync.Base.{
  ℕ, String, false, Option, none, some, List, ◌≡◌, refl, ap, sym, ◌∙◌, arith, inl, inr, Bool-cases,
  Option-cases,
}
use aapda_sync.Auth.{Session, App, Action, save_shelter}
use aapda_sync.Auth.Throttle.{lock_state}
use aapda_sync.Auth.Verify.{Login, Verdict, granted, Operator, verify_credential, settle, reply}
use aapda_sync.Auth.Verify.Door.{Accepts, verify_credential-granted}
use aapda_sync.Auth.Gate.{
  Outcome, ran, out_of_scope, is_known, run_action, run_pending, confirm, step_up_end,
  submit_step_up,
}

module _ (derive_key : String → String → List ℕ) (b64_to_bytes : String → List ℕ) where
  session-settle :
      (now : ℕ) (user : String) (v : Verdict) (app : App)
      → (settle now user v app).session ≡ app.session
  unfolding settle
  session-settle now user (granted operator token) app = refl
  session-settle now user Verdict.bad app = refl
  session-settle now user Verdict.unreachable app = refl
  session-settle now user (Verdict.locked seconds) app = refl

  session-verify_credential :
      (start end : ℕ) (api : Option Login) (user password : String) (before after : App)
      → (verify_credential derive_key b64_to_bytes start end api user password before
          after).0.session
        ≡ after.session
  unfolding verify_credential
  session-verify_credential start end api user password before after =
      ground
        (arith, session-settle end user (reply derive_key b64_to_bytes api user password) after)

  step_up_run-settle :
      (now : ℕ) (user : String) (v : Verdict) (app : App)
      → (settle now user v app).step_up_run ≡ app.step_up_run
  unfolding settle
  step_up_run-settle now user (granted operator token) app = refl
  step_up_run-settle now user Verdict.bad app = refl
  step_up_run-settle now user Verdict.unreachable app = refl
  step_up_run-settle now user (Verdict.locked seconds) app = refl

  step_up_run-verify_credential :
      (start end : ℕ) (api : Option Login) (user password : String) (before after : App)
      → (verify_credential derive_key b64_to_bytes start end api user password before
          after).0.step_up_run
        ≡ after.step_up_run
  unfolding verify_credential
  step_up_run-verify_credential start end api user password before after =
      ground
        (arith, step_up_run-settle end user (reply derive_key b64_to_bytes api user password) after)

  -- The shelter that a handler wrote, if it wrote one.
  abbrev pub written_in : Option (App × Outcome) → Option String
  written_in none = none
  written_in (some (b, ran o)) = o
  written_in (some (b, o)) = none

  run_action-written :
      (now : ℕ) (s : Session) (run : Action) (app : App) (id : String)
      → written_in (some (run_action now s run app)) ≡ some id
      → (run ≡ save_shelter id) × (out_of_scope id s.scope ≡ false)
  unfolding run_action
  run_action-written now s (save_shelter j) app id e = elim (Bool-cases (out_of_scope j s.scope)) [
    | inl out ↦ cc (rw (out, run_action) at e)
    | inr within ↦ elim (Bool-cases (is_known j app)) [
      | inl known ↦
          (let same : j ≡ id = cc (rw (within, known, run_action) at e) in
            (ap save_shelter same, subst (λ k. out_of_scope k s.scope ≡ false) same within))
      | inr unknown ↦ cc (rw (within, unknown, run_action) at e)
    ]
  ]

  run_pending-written :
      (now : ℕ) (s : Session) (run : Option Action) (app : App) (id : String)
      → written_in (some (run_pending now s run app)) ≡ some id
      → (run ≡ some (save_shelter id)) × (out_of_scope id s.scope ≡ false)
  run_pending-written now s none app id e = cc
  run_pending-written now s (some run) app id e =
      let (which, within) = run_action-written now s run app id e in (ap some which, within)

  -- What a confirmed password ran, in a store where a session is open.
  abbrev pub Ran : App → String → Type 0
  Ran app id =
      (s : Session) × (app.session ≡ some s)
      × (app.step_up_run ≡ some (save_shelter id))
      × (out_of_scope id s.scope ≡ false)

  confirm-written :
      (now : ℕ) (o : Option Session) (app : App) (id : String)
      → app.session ≡ o
      → written_in (confirm now o app) ≡ some id
      → Ran app id
  unfolding confirm
  confirm-written now none app id same e = cc
  confirm-written now (some s) app id same e =
      let (which, within) = run_pending-written now _ app.step_up_run _ id e in
      (s, same, which, within)

  step_up_end-written :
      (now : ℕ) (v : Verdict) (app : App) (id : String)
      → written_in (step_up_end now v app) ≡ some id
      → ((operator : Operator) × (token : Option String) × (v ≡ granted operator token))
        × Ran app id
  unfolding step_up_end
  step_up_end-written now (granted op token) app id e =
      ((op, token, refl), confirm-written now app.session app id refl e)
  step_up_end-written now Verdict.bad app id e = cc
  step_up_end-written now Verdict.unreachable app id e = cc
  step_up_end-written now (Verdict.locked seconds) app id e = cc

  -- The dialog that asks for the password again writes a shelter only where a session was open at the
  -- click whose account was not locked and whose password is accepted; where a session is still open
  -- when the answer is there, whose scope, if there is one, names that shelter; and where it is the
  -- shelter that was waiting. Whether that session is live and holds the permission is not asked.
  pub submit_step_up-written :
      (start end : ℕ) (api : Option Login) (password : String) (before after : App) (id : String)
      → written_in (submit_step_up derive_key b64_to_bytes start end api password before after)
        ≡ some id
      → (asked : Session) × (before.session ≡ some asked)
        × (lock_state start asked.user before.attempts ≡ none)
        × ((operator : Operator) × (token : Option String) × Accepts derive_key b64_to_bytes api
              asked.user password operator token)
        × Ran after id
  unfolding submit_step_up
  submit_step_up-written start end api password before after id e =
      elim (Option-cases before.session) [
        | inl absent ↦ cc (rw (absent, submit_step_up) at e)
        | inr (asked, present) ↦
            let outcome =
              verify_credential derive_key b64_to_bytes start end api asked.user password before
                after in
            let ((op, token, g), (s, open_now, waiting, within)) =
              step_up_end-written end outcome.1 outcome.0 id (rw (present, submit_step_up) at e) in
            let (unlocked, accepts) =
              verify_credential-granted derive_key b64_to_bytes start end api asked.user password
                before after op token g in
            let kept = session-verify_credential start end api asked.user password before after in
            let kept_run =
              step_up_run-verify_credential start end api asked.user password before after in
            (
              asked,
              present,
              unlocked,
              (op, token, accepts),
              (s, sym kept ∙ open_now, sym kept_run ∙ waiting, within),
            )
      ]
