-- ===== src/Auth.antt =====
-- The authentication module (frontend/standalone/src/auth.js): the state that the handlers share,
-- which is `AUTH`, and of the store `S` the fields that decide which screen is shown.
-- A handler that runs to its end without waiting reads the clock once, as `now`, in milliseconds.
pub mod Throttle
pub mod Verify
pub mod Sessions
pub mod Gate
pub mod Router
pub mod Safety
mod Tests
use aapda_sync.Base.{
  ℕ, ◌*◌, String, Bool, false, Option, none, some, List, [], ◌∷◌, length, ltb, take, lookup,
  or_else, get_elem?, refl, if◌then◌else◌, ◌≡◌, ◌≤◌, arith, min, length-take,
}

-- The constants of `AUTH`.
abbrev pub idle_ms : ℕ
idle_ms = 15 * 60 * 1000

abbrev pub absolute_ms : ℕ
absolute_ms = 8 * 60 * 60 * 1000

abbrev pub step_up_ms : ℕ
step_up_ms = 10 * 60 * 1000

abbrev pub warn_ms : ℕ
warn_ms = 60 * 1000

abbrev pub max_attempts : ℕ
max_attempts = 5

pub data Role : Type 0 where
  citizen gov : Role

pub record Session : Type 0 where
  pub user : String
  pub name : String
  pub role : String
  pub district : Option String
  pub scope : Option (List String)
  pub can : List String
  pub token : Option String
  pub issued_at : ℕ
  pub absolute_expiry : ℕ
  pub last_activity : ℕ
  pub step_up_at : ℕ

pub record Attempt : Type 0 where
  pub n : ℕ
  pub locked_until : ℕ

-- The text of an audit entry, by what it interpolates.
pub data Detail : Type 0 where
  session_opened : String → Detail
  locked_out : ℕ → Detail
  credential_rejected reentry_rejected reconfirmed : Detail
  because : String → Detail
  refused : (label role permission : String) → Detail
  outside_scope updated : String → Detail

pub record Entry : Type 0 where
  pub at : ℕ
  pub kind : String
  pub detail : Detail
  pub user : String

-- The dialog that stands on the screen.
pub data Modal : Type 0 where
  sign_in sign_out step_up : Modal

-- What a privileged caller asks to run: the closure of `saveShelter(id)`.
pub data Action : Type 0 where
  save_shelter : String → Action

-- `AUTH`, and the fields of `S`; of `S.shelters` the ids.
pub record App : Type 0 where
  pub session : Option Session
  pub attempts : List (String × Attempt)
  pub audit : List Entry
  pub busy : Bool
  pub step_up_run : Option Action
  pub modal : Option Modal
  pub role : Role
  pub cz : String
  pub view : String
  pub dw : Option String
  pub focus : Option String
  pub map_focus : Option String
  pub cz_framed : Bool
  pub watching : Bool
  pub warn_shown : Bool
  pub shelters : List String

role_labels : List (String × String)
role_labels =
    ("national_command", "National Command")
    ∷ ("district_command", "District Command")
    ∷ ("state_ops", "State Operations")
    ∷ ("shelter_operator", "Shelter Operator")
    ∷ ("field_officer", "Field Officer")
    ∷ []

-- `ROLE_LABEL[role] || role`
pub role_label : String → String
unfolding role_labels lookup
role_label role = or_else (lookup role role_labels) role

-- `user || (AUTH.session ? AUTH.session.user : '—')`
abbrev pub actor : Option String → Option Session → String
actor (some user) s = user
actor none (some s) = s.user
actor none none = "—"

abbrev pub entry : ℕ → String → Detail → Option String → App → Entry
entry now kind detail user app = record {
  at = now;
  kind = kind;
  detail = detail;
  user = actor user app.session;
}

-- At most 200 entries, newest first.
unfoldable pub audit_log : ℕ → String → Detail → Option String → App → App
audit_log now kind detail user app =
    let audit = entry now kind detail user app ∷ app.audit in
    record app { audit = if ltb 200 (length audit) then take (length app.audit) audit else audit }

pub length-audit_log :
    (now : ℕ) (kind : String) (detail : Detail) (user : Option String) (app : App)
    → length app.audit ≤ 200
    → length (audit_log now kind detail user app).audit ≤ 200
unfolding audit_log
length-audit_log now kind detail user app h =
    ground (arith, length-take (length app.audit) (entry now kind detail user app ∷ app.audit))

newest {ℓ} :
    {A : Type ℓ} (e : A) (xs : List A)
    → get_elem? (if ltb 200 (length (e ∷ xs)) then take (length xs) (e ∷ xs) else e ∷ xs) 0 ≡ some e
newest e [] = refl
newest e (x ∷ xs) = ground arith

pub newest-audit_log :
    (now : ℕ) (kind : String) (detail : Detail) (user : Option String) (app : App)
    → get_elem? (audit_log now kind detail user app).audit 0 ≡ some (entry now kind detail user app)
unfolding audit_log
newest-audit_log now kind detail user app = newest (entry now kind detail user app) app.audit
