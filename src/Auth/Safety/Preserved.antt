-- ===== src/Auth/Safety/Preserved.antt =====
-- Every step keeps the invariant.
use aapda_sync.Base.{ℕ, String, List, ◌≡◌, refl, some, Option}
use aapda_sync.Auth.{App, Session}
use aapda_sync.Auth.Verify.{Operator, granted, verify_credential}
use aapda_sync.Auth.Sessions.{session_of}
use aapda_sync.Auth.Safety.{
  Step, paints, checks, touches, watches, enters, enters_command, asks_role, signs_out, goes,
  goes_public, requires, starts, signs_in, steps_up,
}
use aapda_sync.Auth.Safety.Invariant.{IsSafe, Closed, touch_session-IsSafe, checked, render-IsSafe}
use aapda_sync.Auth.Safety.Handlers.{
  confirm_sign_out-IsSafe, watch-IsSafe, enter-IsSafe, enter_command-IsSafe, cz_go-IsSafe,
  request_role-IsSafe, require_privilege-IsSafe, go-IsSafe,
}
use aapda_sync.Auth.Safety.Credentials.{
  sign_in_start-IsSafe, sign_in_finish-IsSafe, submit_step_up-IsSafe,
}

module _ (derive_key : String → String → List ℕ) (b64_to_bytes : String → List ℕ) where
  -- The session is the one that the step grants, at a credential that it found to be right.
  abbrev pub Grants :
      {past : List App} {a b : App} → Step derive_key b64_to_bytes past a b → Session → Type 0
  Grants {a = a} (signs_in start end api user password before seen) s =
      (operator : Operator) × (token : Option String) × ((verify_credential derive_key b64_to_bytes
          start end api user password before a).1
        ≡ granted operator token)
      × (s ≡ session_of end user operator token)
  Grants (paints now) s = ⊥
  Grants (checks now) s = ⊥
  Grants (touches now) s = ⊥
  Grants (watches now) s = ⊥
  Grants (enters now) s = ⊥
  Grants (enters_command now) s = ⊥
  Grants (asks_role now target) s = ⊥
  Grants (signs_out now) s = ⊥
  Grants (goes now v) s = ⊥
  Grants (goes_public now v) s = ⊥
  Grants (requires now permission label run) s = ⊥
  Grants (starts e) s = ⊥
  Grants (steps_up start end api password before seen e) s = ⊥

  module _ (P : Option Session → Type 0) (closed : Closed P) where
    -- A step that keeps the invariant for the session that it grants, if it grants one, keeps it.
    pub Step-IsSafe :
        {past : List App} {a b : App} (st : Step derive_key b64_to_bytes past a b)
        → ((s : Session) → Grants st s → P (some s))
        → IsSafe P a
        → IsSafe P b
    Step-IsSafe {a = a} (paints now) opens h = render-IsSafe P closed now a h
    Step-IsSafe {a = a} (checks now) opens h = checked P closed now a h
    Step-IsSafe {a = a} (touches now) opens h = touch_session-IsSafe P closed now a h
    Step-IsSafe {a = a} (watches now) opens h = watch-IsSafe P closed now a h
    Step-IsSafe {a = a} (enters now) opens h = enter-IsSafe P closed now a h
    Step-IsSafe {a = a} (enters_command now) opens h = enter_command-IsSafe P closed now a h
    Step-IsSafe {a = a} (asks_role now target) opens h = request_role-IsSafe P closed now a h target
    Step-IsSafe {a = a} (signs_out now) opens h = confirm_sign_out-IsSafe P closed now a h
    Step-IsSafe {a = a} (goes now v) opens h = go-IsSafe P closed now a h v
    Step-IsSafe {a = a} (goes_public now v) opens h = cz_go-IsSafe P closed now a h v
    Step-IsSafe {a = a} (requires now permission label run) opens h =
        require_privilege-IsSafe P closed now a h permission label run
    Step-IsSafe {a = a} {b = b} (starts e) opens h = sign_in_start-IsSafe P closed a b h e
    Step-IsSafe {a = a} (signs_in start end api user password before seen) opens h =
        sign_in_finish-IsSafe P closed derive_key b64_to_bytes start end api user password before a
          (λ op token e. opens _ (op, token, e, refl)) h
    Step-IsSafe {a = a} {b = b} (steps_up {o = o} start end api password before seen e) opens h =
        submit_step_up-IsSafe P closed derive_key b64_to_bytes start end api password before a b o h
          e
