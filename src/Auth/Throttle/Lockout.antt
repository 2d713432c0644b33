-- ===== src/Auth/Throttle/Lockout.antt =====
-- What a run of failures does to an account.
use aapda_sync.Base.{
  ℕ, ◌+◌, ◌-◌, ◌^◌, ◌≤◌, ◌<◌, String, none, some, List, lookup, lookup-insert, or_else, ◌≡◌, ap,
  arith, str_eq_refl, zero, suc, Option, false, refl, ltb, if◌then◌else◌, ◌∙◌, inl, inr, Bool-cases,
}
use native.Mathlib.Nat.{pow-suc}
use aapda_sync.Auth.{Attempt, max_attempts}
use aapda_sync.Auth.Throttle.{
  seconds, lock_left, lock_state, fresh, lock_ms, count_failure, record_failure, on_prototype,
  is_inherited,
}

-- The record of an account.
abbrev pub attempt_of : String → List (String × Attempt) → Attempt
attempt_of user attempts = or_else (lookup user attempts) fresh

pow_pos : (k : ℕ) → 1 ≤ 2 ^ k
pow_pos zero = omega arith
pow_pos (suc k) = omega (arith, pow-suc 2 k, pow_pos k)

-- A lock lasts from one minute up to fifteen.
pub lock_ms_bounds : (over : ℕ) → (60000 ≤ lock_ms over) × (lock_ms over ≤ 900000)
unfolding lock_ms
lock_ms_bounds over = omega (arith, pow_pos over)

is_inherited-own :
    (user : String) (o : Option Attempt) → on_prototype user ≡ false → is_inherited user o ≡ false
is_inherited-own user none own = own
is_inherited-own user (some a) own = refl

attempt_of-record_failure :
    (now : ℕ) (user : String) (attempts : List (String × Attempt))
    → on_prototype user ≡ false
    → attempt_of user (record_failure now user attempts)
      ≡ count_failure now (attempt_of user attempts)
unfolding record_failure
attempt_of-record_failure now user attempts own =
    rw (is_inherited-own user (lookup user attempts) own) (simp (lookup-insert, str_eq_refl))

-- A failure raises the count of its own account by one.
pub record_failure_count :
    (now : ℕ) (user : String) (attempts : List (String × Attempt))
    → on_prototype user ≡ false
    → (attempt_of user (record_failure now user attempts)).n ≡ (attempt_of user attempts).n + 1
unfolding count_failure
record_failure_count now user attempts own =
    rw (attempt_of-record_failure now user attempts own) (ground arith)

lock_state-attempt_of :
    (t : ℕ) (user : String) (attempts : List (String × Attempt))
    → lock_state t user attempts ≡ lock_left t (attempt_of user attempts)
unfolding lock_state lock_left
lock_state-attempt_of t user attempts = ground arith

-- From the fifth failure on the account is locked, and is so exactly until `lock_ms` has passed;
-- before the fifth a failure changes nothing about the lock. Where it is locked, the seconds shown
-- are those that are left, rounded up.
pub lock_state-record_failure :
    (now t : ℕ) (user : String) (attempts : List (String × Attempt))
    → on_prototype user ≡ false
    → (4 ≤ (attempt_of user attempts).n
        → (t < now + lock_ms ((attempt_of user attempts).n - 4)
            → lock_state t user (record_failure now user attempts)
              ≡ some (seconds (now + lock_ms ((attempt_of user attempts).n - 4) - t)))
          × (now + lock_ms ((attempt_of user attempts).n - 4) ≤ t
              → lock_state t user (record_failure now user attempts) ≡ none))
      × ((attempt_of user attempts).n < 4
          → lock_state t user (record_failure now user attempts) ≡ lock_state t user attempts)
unfolding count_failure lock_left
lock_state-record_failure now t user attempts own =
    rw
      (
        lock_state-attempt_of,
        attempt_of-record_failure now user attempts own,
        lock_state-attempt_of,
      )
      (lock_left-count_failure (attempt_of user attempts))
  where
    lock_left-count_failure :
        (a : Attempt)
        → (4 ≤ a.n
            → (t < now + lock_ms (a.n - 4)
                → lock_left t (count_failure now a) ≡ some (seconds (now + lock_ms (a.n - 4) - t)))
              × (now + lock_ms (a.n - 4) ≤ t → lock_left t (count_failure now a) ≡ none))
          × (a.n < 4 → lock_left t (count_failure now a) ≡ lock_left t a)
    lock_left-count_failure a =
        let same : a.n + 1 - max_attempts ≡ a.n - 4 = omega arith in
        ground (arith, lock_ms_bounds (a.n - 4), ap lock_ms same)

-- The lock at the time `t`, after one more failure at `now` of an account with this record.
abbrev pub lock_after : (now t : ℕ) → Attempt → Option ℕ
lock_after now t a =
    if ltb a.n 4
    then lock_left t a
    else if ltb t (now + lock_ms (a.n - 4))
    then some (seconds (now + lock_ms (a.n - 4) - t))
    else none

pub lock_after-record_failure :
    (now t : ℕ) (user : String) (attempts : List (String × Attempt))
    → on_prototype user ≡ false
    → lock_state t user (record_failure now user attempts)
      ≡ lock_after now t (attempt_of user attempts)
lock_after-record_failure now t user attempts own =
    let (late, early) = lock_state-record_failure now t user attempts own in
    let same = lock_state-attempt_of t user attempts in
    let k = (attempt_of user attempts).n in
    elim (Bool-cases (ltb k 4)) [
      | inl few ↦ rw few (early (ground arith) ∙ same)
      | inr many ↦ elim (Bool-cases (ltb t (now + lock_ms (k - 4)))) [
        | inl soon ↦ rw (many, soon) ((late (ground arith)).0 (ground arith))
        | inr past ↦ rw (many, past) ((late (ground arith)).1 (ground arith))
      ]
    ]
