-- ===== src/Auth/Safety.antt =====
-- Every handler as a step of one relation, in any order and at any time, and what holds in every
-- store that such steps reach.
pub mod Invariant
pub mod Handlers
pub mod Credentials
pub mod Preserved
pub mod Door
use aapda_sync.Base.{ℕ, String, Option, some, List, [], ◌∷◌, ◌≡◌}
use aapda_sync.Auth.{Role, Action, App}
use aapda_sync.Auth.Verify.{Login}
use aapda_sync.Auth.Sessions.{signed_in, touch_session, render}
use aapda_sync.Auth.Gate.{Outcome, require_privilege, submit_step_up}
use aapda_sync.Auth.Router.{
  sign_in_start, sign_in_finish, confirm_sign_out, watch, request_role, enter, enter_command, go,
  cz_go,
}

-- The store is one of those that a run has passed.
pub data Seen (a : App) : List App → Type 0 where
  newest : {past : List App} → Seen a (a ∷ past)
  earlier : {b : App} {past : List App} → Seen a past → Seen a (b ∷ past)

module _ (derive_key : String → String → List ℕ) (b64_to_bytes : String → List ℕ) where
  -- The second half of an asynchronous handler finds the store at its start among those that the run
  -- has passed: `past`, the newest first.
  pub data Step (past : List App) : App → App → Type 0 where
    paints : {a : App} (now : ℕ) → Step past a (render now a)
    checks : {a : App} (now : ℕ) → Step past a (signed_in now a).0
    touches : {a : App} (now : ℕ) → Step past a (touch_session now a)
    watches : {a : App} (now : ℕ) → Step past a (watch now a)
    enters : {a : App} (now : ℕ) → Step past a (enter now a)
    enters_command : {a : App} (now : ℕ) → Step past a (enter_command now a)
    asks_role : {a : App} (now : ℕ) (target : Role) → Step past a (request_role now target a)
    signs_out : {a : App} (now : ℕ) → Step past a (confirm_sign_out now a)
    goes : {a : App} (now : ℕ) (v : String) → Step past a (go now v a)
    goes_public : {a : App} (now : ℕ) (v : String) → Step past a (cz_go now v a)
    requires :
        {a : App} (now : ℕ) (permission label : String) (run : Action)
        → Step past a (require_privilege now permission label run a).0
    starts : {a b : App} → sign_in_start a ≡ some b → Step past a b
    signs_in :
        {a : App} (start end : ℕ) (api : Option Login) (user password : String) (before : App)
        → Seen before past
        → Step past a (sign_in_finish derive_key b64_to_bytes start end api user password before a)
    steps_up :
        {a b : App} {o : Outcome} (start end : ℕ) (api : Option Login) (password : String)
        (before : App)
        → Seen before past
        → submit_step_up derive_key b64_to_bytes start end api password before a ≡ some (b, o)
        → Step past a b

  -- A run, with the stores that it has passed.
  pub data Reach (a : App) : List App → App → Type 0 where
    here : Reach a (a ∷ []) a
    next : {past : List App} {b c : App} → Reach a past b → Step past b c → Reach a (c ∷ past) c
