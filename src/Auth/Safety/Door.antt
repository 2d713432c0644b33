-- ===== src/Auth/Safety/Door.antt =====
-- The only door into Command, over every run of the handlers.
use aapda_sync.Base.{
  ℕ, ◌≤◌, String, Option, none, some, List, [], ◌∷◌, length, ◌≡◌, ◌≢◌, ◌⊎◌, inl, inr, refl, sym, ap,
}
use mathlib.Core.Path.{subst}
use aapda_sync.Auth.{citizen, gov, Session, App}
use aapda_sync.Auth.Throttle.{lock_state}
use aapda_sync.Auth.Verify.{Operator}
use aapda_sync.Auth.Verify.Door.{Accepts, verify_credential-granted}
use aapda_sync.Auth.Sessions.{session_of}
use aapda_sync.Auth.Safety.{
  Step, paints, checks, touches, watches, enters, enters_command, asks_role, signs_out, goes,
  goes_public, requires, starts, signs_in, steps_up, Reach, here, next,
}
use aapda_sync.Auth.Safety.Invariant.{Opened, Closed, IsSafe}
use aapda_sync.Auth.Safety.Preserved.{Grants, Step-IsSafe}

-- A store that stands on the public portal with no session.
pub record IsPublic (app : App) : Type 0 where
  pub signed_out : app.session ≡ none
  pub public : app.role ≡ citizen
  pub bounded : length app.audit ≤ 200

module _ (derive_key : String → String → List ℕ) (b64_to_bytes : String → List ℕ) where
  -- A sign-in of the run that opened the session: its credential was accepted, by what the API answered
  -- or by the local directory, at an account that was not locked at the click. What the session may
  -- do and when it ends at the latest were fixed then; only its last activity and its last password
  -- entry are of a later date.
  abbrev pub OpenedBy :
      {past : List App} {a b : App} → Step derive_key b64_to_bytes past a b → Session → Type 0
  OpenedBy (signs_in start end api user password before seen) s =
      (operator : Operator) × (token : Option String) × (lock_state start user before.attempts
        ≡ none)
      × Accepts derive_key b64_to_bytes api user password operator token
      × (s ≡ record (session_of end user operator token) {
        last_activity = s.last_activity;
        step_up_at = s.step_up_at;
      })
  OpenedBy (paints now) s = ⊥
  OpenedBy (checks now) s = ⊥
  OpenedBy (touches now) s = ⊥
  OpenedBy (watches now) s = ⊥
  OpenedBy (enters now) s = ⊥
  OpenedBy (enters_command now) s = ⊥
  OpenedBy (asks_role now target) s = ⊥
  OpenedBy (signs_out now) s = ⊥
  OpenedBy (goes now v) s = ⊥
  OpenedBy (goes_public now v) s = ⊥
  OpenedBy (requires now permission label run) s = ⊥
  OpenedBy (starts e) s = ⊥
  OpenedBy (steps_up start end api password before seen e) s = ⊥

  -- One of the steps of the run did.
  abbrev pub OpenedIn :
      {a : App} {past : List App} {b : App}
      → Reach derive_key b64_to_bytes a past b
      → Session
      → Type 0
  OpenedIn here s = ⊥
  OpenedIn (next r st) s = OpenedBy st s ⊎ OpenedIn r s

  moved :
      {past : List App} {a b : App} (st : Step derive_key b64_to_bytes past a b) (s : Session)
      (last_activity step_up_at : ℕ)
      → OpenedBy st s
      → OpenedBy st (record s { last_activity = last_activity; step_up_at = step_up_at })
  moved (signs_in start end api user password before seen) s last_activity step_up_at
        (op, token, unlocked, accepts, same) =
      (
        op,
        token,
        unlocked,
        accepts,
        ap (λ (t : Session). record t { last_activity = last_activity; step_up_at = step_up_at })
            same,
      )
  moved (paints now) s last_activity step_up_at o = elim o [ ]
  moved (checks now) s last_activity step_up_at o = elim o [ ]
  moved (touches now) s last_activity step_up_at o = elim o [ ]
  moved (watches now) s last_activity step_up_at o = elim o [ ]
  moved (enters now) s last_activity step_up_at o = elim o [ ]
  moved (enters_command now) s last_activity step_up_at o = elim o [ ]
  moved (asks_role now target) s last_activity step_up_at o = elim o [ ]
  moved (signs_out now) s last_activity step_up_at o = elim o [ ]
  moved (goes now v) s last_activity step_up_at o = elim o [ ]
  moved (goes_public now v) s last_activity step_up_at o = elim o [ ]
  moved (requires now permission label run) s last_activity step_up_at o = elim o [ ]
  moved (starts e) s last_activity step_up_at o = elim o [ ]
  moved (steps_up start end api password before seen e) s last_activity step_up_at o = elim o [ ]

  moved_in :
      {a : App} {past : List App} {b : App} (r : Reach derive_key b64_to_bytes a past b)
      (s : Session) (last_activity step_up_at : ℕ)
      → OpenedIn r s
      → OpenedIn r (record s { last_activity = last_activity; step_up_at = step_up_at })
  moved_in here s last_activity step_up_at o = elim o [ ]
  moved_in (next r st) s last_activity step_up_at (inl o) =
      inl (moved st s last_activity step_up_at o)
  moved_in (next r st) s last_activity step_up_at (inr o) =
      inr (moved_in r s last_activity step_up_at o)

  abbrev Came :
      {a : App} {past : List App} {b : App}
      → Reach derive_key b64_to_bytes a past b
      → Option Session
      → Type 0
  Came r none = Unit
  Came r (some s) = OpenedIn r s

  Came-Closed :
      {a : App} {past : List App} {b : App} (r : Reach derive_key b64_to_bytes a past b)
      → Closed (Came r)
  Came-Closed r = record {
    at_end = tt;
    at_touch = λ s now o. moved_in r s now s.step_up_at o;
    at_step_up = λ s now o. moved_in r s s.last_activity now o;
  }

  OpenedBy-Grants :
      {past : List App} {a b : App} (st : Step derive_key b64_to_bytes past a b) (s : Session)
      → Grants derive_key b64_to_bytes st s
      → OpenedBy st s
  OpenedBy-Grants {a = a} (signs_in start end api user password before seen) s
        (op, token, e, same) =
      let (unlocked, accepts) =
        verify_credential-granted derive_key b64_to_bytes start end api user password before a op
          token e in
      (
        op,
        token,
        unlocked,
        accepts,
        subst
            (λ (t : Session). t ≡ record (session_of end user op token) {
              last_activity = t.last_activity;
              step_up_at = t.step_up_at;
            })
            (sym same) refl,
      )
  OpenedBy-Grants (paints now) s o = elim o [ ]
  OpenedBy-Grants (checks now) s o = elim o [ ]
  OpenedBy-Grants (touches now) s o = elim o [ ]
  OpenedBy-Grants (watches now) s o = elim o [ ]
  OpenedBy-Grants (enters now) s o = elim o [ ]
  OpenedBy-Grants (enters_command now) s o = elim o [ ]
  OpenedBy-Grants (asks_role now target) s o = elim o [ ]
  OpenedBy-Grants (signs_out now) s o = elim o [ ]
  OpenedBy-Grants (goes now v) s o = elim o [ ]
  OpenedBy-Grants (goes_public now v) s o = elim o [ ]
  OpenedBy-Grants (requires now permission label run) s o = elim o [ ]
  OpenedBy-Grants (starts e) s o = elim o [ ]
  OpenedBy-Grants (steps_up start end api password before seen e) s o = elim o [ ]

  later :
      {a : App} {past : List App} {b c : App} (r : Reach derive_key b64_to_bytes a past b)
      (st : Step derive_key b64_to_bytes past b c) (o : Option Session)
      → Came r o
      → Came (next r st) o
  later r st none k = tt
  later r st (some s) k = inr k

  abbrev begun : (a : App) → Reach derive_key b64_to_bytes a (a ∷ []) a
  begun a = here

  public-IsSafe : (a : App) → IsPublic a → IsSafe (Came (begun a)) a
  public-IsSafe a p = record {
    opened =
        subst (Opened a.role) (sym p.signed_out) (subst (λ r. Opened r none) (sym p.public) tt);
    limited = subst (Came (begun a)) (sym p.signed_out) tt;
    bounded = p.bounded;
  }

  Reach-IsSafe :
      {a : App} {past : List App} {b : App} (r : Reach derive_key b64_to_bytes a past b)
      → IsPublic a
      → IsSafe (Came r) b
  Reach-IsSafe {a = a} here p = public-IsSafe a p
  Reach-IsSafe (next {b = b} r st) p =
      let h = Reach-IsSafe r p in
      Step-IsSafe derive_key b64_to_bytes (Came (next r st)) (Came-Closed (next r st)) st
        (λ s g. inl (OpenedBy-Grants st s g))
        (record {
          opened = h.opened;
          limited = later r st b.session h.limited;
          bounded = h.bounded;
        })

  module _ (past : List App) (a b : App) (p : IsPublic a)
      (r : Reach derive_key b64_to_bytes a past b) where
    -- However the handlers run after the public portal was entered: a session in the store was
    -- opened by a sign-in of that run, whose credential was accepted, for an account that was not
    -- locked in the store of its click, which the run had passed; the session's permissions and its
    -- scope are that account's, and it ends eight hours after it was opened at the latest.
    pub Reach-OpenedIn : (s : Session) → b.session ≡ some s → OpenedIn r s
    Reach-OpenedIn s e = subst (Came r) e (Reach-IsSafe r p).limited

    -- However the handlers run after the public portal was entered: in Command there is a session.
    pub Reach-in_command : b.role ≡ gov → b.session ≢ none
    Reach-in_command g e =
        let h = Reach-IsSafe r p in
        subst (Opened gov) e (subst (λ t. Opened t b.session) g h.opened)

    -- However the handlers run after the public portal was entered, the audit trail holds at most
    -- 200 entries.
    pub Reach-audit : length b.audit ≤ 200
    Reach-audit = (Reach-IsSafe r p).bounded
