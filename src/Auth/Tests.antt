-- ===== src/Auth/Tests.antt =====
-- A shelter operator signs in and updates a shelter: the theorems at work on concrete stores.
use aapda_sync.Base.{
  ℕ, ◌+◌, String, true, false, none, some, List, [], ◌∷◌, ◌≡◌, ◌≢◌, refl, arith, lookup, insert,
  ◌<◌, ◌≤◌, Option, ◌↔◌, ap, str_eq, if◌then◌else◌,
}
use aapda_sync.Auth.{
  step_up_ms, idle_ms, save_shelter, citizen, gov, Session, Attempt, App, audit_log,
}
use aapda_sync.Auth.Throttle.{lock_state, lock_left, record_failure, count_failure, fresh}
use aapda_sync.Auth.Throttle.Lockout.{attempt_of, lock_after}
use aapda_sync.Auth.Verify.{
  Operator, operators, Verdict, granted, bad, timing_safe_equal, difference, check_local, reply,
  settle, verify_credential,
}
use aapda_sync.Auth.Verify.Compare.{timing_safe_equal_iff}
use aapda_sync.Auth.Verify.Door.{
  Accepts, TurnsAway, verify_credential-granted, verify_credential-locks,
}
use aapda_sync.Auth.Sessions.{
  session_of, signed_in, touch_session, grant_session, render, paint, holds,
}
use aapda_sync.Auth.Sessions.Expiry.{IsLive, signed_in-touch_session}
use aapda_sync.Auth.Gate.{
  ran, out_of_scope, require_privilege, save_shelter_click, with_session, run_action,
  submit_step_up, step_up_end, confirm,
}
use aapda_sync.Auth.Gate.Privilege.{LogsWrite, save_shelter_click-written}
use aapda_sync.Auth.Gate.StepUp.{written_in, Ran, submit_step_up-written}
use aapda_sync.Auth.Router.{sign_in_finish, sign_in_end, start_session_watch}
use aapda_sync.Auth.Safety.{Seen, Step, Reach}
use aapda_sync.Auth.Safety.Door.{IsPublic, OpenedIn, Reach-OpenedIn, Reach-in_command}

-- A derivation that knows one password, and the decoded hashes.
abbrev derive : String → String → List ℕ
derive password salt = if str_eq password "right" then 7 ∷ [] else 1 ∷ []

abbrev bytes : String → List ℕ
bytes hash = 7 ∷ []

abbrev door : App
door = record {
  session = none;
  attempts = [];
  audit = [];
  busy = false;
  step_up_run = none;
  modal = none;
  role = citizen;
  cz = "home";
  view = "map";
  dw = none;
  focus = none;
  map_focus = none;
  cz_framed = false;
  watching = false;
  warn_shown = false;
  shelters = "SH-201" ∷ [];
}

abbrev shelter_201 : Operator
shelter_201 = record {
  name = "Shelter Operator · SH-201";
  role = "shelter_operator";
  district = some "UT-CHAMOLI";
  scope = some ("SH-201" ∷ []);
  can = some ("read_operational" ∷ "update_shelter_status" ∷ []);
}

abbrev session : Session
session = session_of 5 "shelter.201" shelter_201 none

abbrev opened_app : App
opened_app = sign_in_finish derive bytes 0 5 none "shelter.201" "right" door door

-- The store after the credential was checked, at the opening of the session.
abbrev checked : App
checked = record door { attempts = ("shelter.201", fresh) ∷ [] }

accepted_right :
    verify_credential derive bytes 0 5 none "shelter.201" "right" door door
    ≡ (checked, granted shelter_201 none)
unfolding verify_credential lock_state lock_left reply check_local operators timing_safe_equal
    difference settle lookup insert record_failure count_failure
accepted_right = refl

verify_credential-granted_example :
    (lock_state 0 "shelter.201" [] ≡ none)
    × Accepts derive bytes none "shelter.201" "right" shelter_201 none
verify_credential-granted_example =
    verify_credential-granted derive bytes 0 5 none "shelter.201" "right" door door shelter_201 none
      (ap (λ (r : App × Verdict). r.1) accepted_right)

opened_session : opened_app.session ≡ some session
unfolding verify_credential lock_state lock_left reply check_local operators timing_safe_equal
    difference settle lookup insert record_failure count_failure sign_in_finish sign_in_end
    grant_session audit_log render paint signed_in start_session_watch
opened_session = refl

opened_role : opened_app.role ≡ gov
unfolding verify_credential lock_state lock_left reply check_local operators timing_safe_equal
    difference settle lookup insert record_failure count_failure sign_in_finish sign_in_end
    grant_session audit_log render paint signed_in start_session_watch
opened_role = refl

door-IsPublic : IsPublic door
door-IsPublic = record { signed_out = refl; public = refl; bounded = omega arith }

abbrev one_step : Reach derive bytes door (opened_app ∷ door ∷ []) opened_app
one_step = Reach.next Reach.here (Step.signs_in 0 5 none "shelter.201" "right" door Seen.newest)

Reach-OpenedIn_example : OpenedIn derive bytes one_step session
Reach-OpenedIn_example =
    Reach-OpenedIn derive bytes (opened_app ∷ door ∷ []) door opened_app door-IsPublic one_step
      session opened_session

Reach-in_command_example : opened_app.session ≢ none
Reach-in_command_example =
    Reach-in_command derive bytes (opened_app ∷ door ∷ []) door opened_app door-IsPublic one_step
      opened_role

-- An app in Command with that session.
abbrev inside : App
inside = record door { session = some session; role = gov }

abbrev target : String
target = "SH-201"

written_201 : (save_shelter_click 100 "SH-201" inside).1 ≡ ran (some "SH-201")
unfolding save_shelter_click require_privilege with_session run_action signed_in touch_session
written_201 = refl

save_shelter_click-written_example :
    (s : Session) × (some session ≡ some s)
    × IsLive 100 s
    × (holds "update_shelter_status" (some s) ≡ true)
    × (100 < s.step_up_at + step_up_ms)
    × (target ≡ target)
    × (out_of_scope "SH-201" s.scope ≡ false)
    × LogsWrite 100 "SH-201" s (save_shelter_click 100 "SH-201" inside).0
save_shelter_click-written_example =
    save_shelter_click-written 100 "SH-201" inside "SH-201" written_201

-- The dialog for the password stands, for that shelter.
abbrev waiting : App
waiting = record inside { step_up_run = some (save_shelter "SH-201") }

confirmed_201 :
    written_in derive bytes (submit_step_up derive bytes 0 5 none "right" waiting waiting)
    ≡ some "SH-201"
unfolding verify_credential lock_state lock_left reply check_local operators timing_safe_equal
    difference settle lookup insert record_failure count_failure submit_step_up step_up_end confirm
    run_action audit_log
confirmed_201 = refl

submit_step_up-written_example :
    (asked : Session) × (some session ≡ some asked)
    × (lock_state 0 asked.user [] ≡ none)
    × ((operator : Operator) × (token : Option String) × Accepts derive bytes none asked.user
          "right" operator token)
    × Ran derive bytes waiting "SH-201"
submit_step_up-written_example =
    submit_step_up-written derive bytes 0 5 none "right" waiting waiting "SH-201" confirmed_201

idle_out : (signed_in 2000000 inside).1 ≡ false
unfolding signed_in
idle_out = refl

signed_in-touch_session_example :
    ((signed_in 2000000 inside).1 ≡ false)
    × (((signed_in 2800000 (touch_session 2000000 inside)).1 ≡ true)
        ↔ ((2800000 ≤ 2000000 + idle_ms) × (2800000 ≤ session.absolute_expiry)))
signed_in-touch_session_example =
    signed_in-touch_session 2000000 2800000 inside session refl (omega arith) (omega arith)

-- Four failures of one account, the last of them at 1000.
abbrev four : List (String × Attempt)
four = ("so.usdma", record { n = 4; locked_until = 0 }) ∷ []

-- A wrong password for that account.
abbrev tried : App
tried = record door { attempts = four }

wrong : (verify_credential derive bytes 0 1000 none "so.usdma" "wrong" tried tried).1 ≡ bad
unfolding verify_credential lock_state lock_left reply check_local operators timing_safe_equal
    difference settle lookup insert record_failure count_failure
wrong = refl

abbrev after_five : App
after_five = (verify_credential derive bytes 0 1000 none "so.usdma" "wrong" tried tried).0

verify_credential-locks_example :
    ((attempt_of "so.usdma" after_five.attempts).n ≡ (attempt_of "so.usdma" four).n + 1)
    × (lock_state 2000 "so.usdma" after_five.attempts
        ≡ lock_after 1000 2000 (attempt_of "so.usdma" four))
    × TurnsAway derive bytes 0 1000 none "so.usdma" "wrong" tried tried 2000 3000 none "right"
        after_five door
        (lock_after 1000 2000 (attempt_of "so.usdma" four))
verify_credential-locks_example =
    verify_credential-locks derive bytes 0 1000 none "so.usdma" "wrong" tried tried 2000 3000 none
      "right" after_five door wrong refl refl

abbrev key : List ℕ
key = 1 ∷ 2 ∷ []

abbrev other_key : List ℕ
other_key = 1 ∷ 3 ∷ []

timing_safe_equal_iff_example : (timing_safe_equal key other_key ≡ true) ↔ (key ≡ other_key)
timing_safe_equal_iff_example = timing_safe_equal_iff key other_key
