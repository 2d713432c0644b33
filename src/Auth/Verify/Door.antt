-- ===== src/Auth/Verify/Door.antt =====
-- When a credential is accepted, and what a failed one costs.
use aapda_sync.Base.{
  ℕ, ◌+◌, String, Option, none, some, List, lookup, ◌≡◌, ◌⊎◌, inl, inr, refl, Bool-cases,
  Option-cases, ◌∙◌, ap, false,
}
use aapda_sync.Auth.{App}
use aapda_sync.Auth.Throttle.{lock_state, record_failure, on_prototype}
use aapda_sync.Auth.Throttle.Lockout.{
  attempt_of, lock_after, lock_after-record_failure, record_failure_count,
}
use aapda_sync.Auth.Verify.{
  Operator, Account, operators, timing_safe_equal, Login, accepted, refused, Verdict, granted,
  locked, bad, check_local, reply, settle, verify_credential,
}
use aapda_sync.Auth.Verify.Compare.{timing_safe_equal_iff}

module _ (derive_key : String → String → List ℕ) (b64_to_bytes : String → List ℕ) where
  -- The credential is that of a listed account: its derived key is the stored one.
  pub record Matches (user password : String) (rec : Account) : Type 0 where
    pub listed : lookup user operators ≡ some rec
    pub same_key : derive_key password rec.salt ≡ b64_to_bytes rec.hash

  check_local-eq-some :
      (user password : String) (rec : Account)
      → check_local derive_key b64_to_bytes user password ≡ some rec
      → Matches user password rec
  unfolding check_local
  check_local-eq-some user password rec e = elim (Option-cases (lookup user operators)) [
    | inl missing ↦ cc (rw (missing, check_local) at e)
    | inr (found, listed) ↦
        let key = derive_key password found.salt in
        let stored = b64_to_bytes found.hash in
        elim (Bool-cases (timing_safe_equal key stored)) [
          | inl same ↦
              let eq : found ≡ rec = cc (rw (listed, same, check_local) at e) in
              rw (← eq)
                (record { listed = listed; same_key = (timing_safe_equal_iff key stored).0 same })
          | inr differs ↦ cc (rw (listed, differs, check_local) at e)
        ]
  ]

  -- The API accepted the credential, or, where none is configured, the local directory did.
  abbrev pub Accepts : Option Login → String → String → Operator → Option String → Type 0
  Accepts api user password operator token =
      ((t : String) × (api ≡ some (accepted operator t)) × (token ≡ some t))
      ⊎ ((rec : Account) × (api ≡ none)
          × (token ≡ none)
          × Matches user password rec
          × (rec.operator ≡ operator))

  reply-granted :
      (api : Option Login) (user password : String) (operator : Operator) (token : Option String)
      → reply derive_key b64_to_bytes api user password ≡ granted operator token
      → Accepts api user password operator token
  unfolding reply
  reply-granted (some refused) user password operator token e = cc
  reply-granted (some Login.unreachable) user password operator token e = cc
  reply-granted (some (accepted op t)) user password operator token e = inl (t, cc, cc)
  reply-granted none user password operator token e =
      elim (Option-cases (check_local derive_key b64_to_bytes user password)) [
        | inl unknown ↦ cc (rw (unknown, reply) at e)
        | inr (rec, known) ↦
            let e' = rw (known, reply) at e in
            inr (rec, refl, cc e', check_local-eq-some user password rec known, cc e')
      ]

  module _ (start end : ℕ) (api : Option Login) (user password : String) (before after : App) where
    abbrev pub outcome : App × Verdict
    outcome = verify_credential derive_key b64_to_bytes start end api user password before after

    -- A session can be granted only to an account that was not locked when the check began: by the
    -- API, or, where no API is configured, for a listed account whose key is the one derived.
    pub verify_credential-granted :
        (operator : Operator) (token : Option String)
        → outcome.1 ≡ granted operator token
        → (lock_state start user before.attempts ≡ none) × Accepts api user password operator token
    unfolding verify_credential
    verify_credential-granted operator token e =
        elim (Option-cases (lock_state start user before.attempts)) [
          | inr (left, held) ↦ cc (rw (held, verify_credential) at e)
          | inl free ↦ (
            free,
            reply-granted api user password operator token (rw (free, verify_credential) at e),
          )
        ]

    attempts-bad : outcome.1 ≡ bad → outcome.0.attempts ≡ record_failure end user after.attempts
    unfolding verify_credential settle
    attempts-bad e = elim (Option-cases (lock_state start user before.attempts)) [
      | inr (left, held) ↦ cc (rw (held, verify_credential) at e)
      | inl free ↦ rw (free, verify_credential) (rw (rw (free, verify_credential) at e) refl)
    ]

    -- Where a lock holds, an attempt is turned away; its seconds are those that are left.
    abbrev pub TurnsAway :
        (start' end' : ℕ) (api' : Option Login) (password' : String) (before' after' : App)
        → Option ℕ
        → Type 0
    TurnsAway start' end' api' password' before' after' none = Unit
    TurnsAway start' end' api' password' before' after' (some left) =
        verify_credential derive_key b64_to_bytes start' end' api' user password' before' after'
        ≡ (after', locked left)

    TurnsAway-locked :
        (start' end' : ℕ) (api' : Option Login) (password' : String) (before' after' : App)
        (o : Option ℕ)
        → lock_state start' user before'.attempts ≡ o
        → TurnsAway start' end' api' password' before' after' o
    unfolding verify_credential
    TurnsAway-locked start' end' api' password' before' after' none e = tt
    TurnsAway-locked start' end' api' password' before' after' (some left) e =
        rw (verify_credential, e) refl

    -- A refused credential raises the count of its account by one, unless the account has the name of
    -- a property of Object.prototype. From the fifth one on the account is locked for a minute,
    -- doubled for each failure more and at most fifteen; before the fifth one it changes no lock.
    -- Where a lock holds, every further attempt is turned away, with any password and whatever the API
    -- would say.
    pub verify_credential-locks :
        (start' end' : ℕ) (api' : Option Login) (password' : String) (before' after' : App)
        → outcome.1 ≡ bad
        → on_prototype user ≡ false
        → before'.attempts ≡ outcome.0.attempts
        → ((attempt_of user before'.attempts).n ≡ (attempt_of user after.attempts).n + 1)
          × (lock_state start' user before'.attempts
              ≡ lock_after end start' (attempt_of user after.attempts))
          × TurnsAway start' end' api' password' before' after'
              (lock_after end start' (attempt_of user after.attempts))
    verify_credential-locks start' end' api' password' before' after' e own same =
        let attempts = same ∙ attempts-bad e in
        let held : lock_state start' user before'.attempts
            ≡ lock_after end start' (attempt_of user after.attempts) =
          ap (lock_state start' user) attempts
          ∙ lock_after-record_failure end start' user after.attempts own in
        (
          rw attempts (record_failure_count end user after.attempts own),
          held,
          TurnsAway-locked start' end' api' password' before' after' _ held,
        )
