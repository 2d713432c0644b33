-- ===== src/Auth/Throttle.antt =====
-- Throttling of failed attempts, per account: `lockState` and `recordFailure`.
pub mod Lockout
use aapda_sync.Base.{
  ℕ, ◌+◌, ◌-◌, ◌*◌, ◌/◌, ◌^◌, min, String, Option, none, some, List, ltb, leb, nat_eq, lookup,
  insert, or_else, if◌then◌else◌, Bool, false, any, str_eq, [], ◌∷◌,
}
use aapda_sync.Auth.{Attempt, max_attempts}

-- `Math.ceil(left / 1000)`
abbrev pub seconds : ℕ → ℕ
seconds left = (left + 999) / 1000

-- `lockedUntil` is 0 where no lock was ever set; the seconds left of a lock that still runs.
unfoldable pub lock_left : ℕ → Attempt → Option ℕ
lock_left now a =
    if nat_eq a.locked_until 0
    then none
    else if ltb now a.locked_until
    then some (seconds (a.locked_until - now))
    else none

unfoldable pub lock_state : ℕ → String → List (String × Attempt) → Option ℕ
unfolding lock_left
lock_state now user attempts = elim (lookup user attempts) [
  | none ↦ none
  | some a ↦ lock_left now a
]

abbrev pub fresh : Attempt
fresh = record { n = 0; locked_until = 0 }

-- `Math.min(60000 * Math.pow(2, over), 15 * 60 * 1000)`
unfoldable pub lock_ms : ℕ → ℕ
lock_ms over = min (60000 * 2 ^ over) (15 * 60 * 1000)

-- The record after one more failure.
unfoldable pub count_failure : ℕ → Attempt → Attempt
count_failure now a =
    let n = a.n + 1 in
    if leb max_attempts n
    then record { n = n; locked_until = now + lock_ms (n - max_attempts) }
    else record { n = n; locked_until = a.locked_until }

-- `AUTH.attempts` is a plain object, and so has the properties of Object.prototype. Where an account
-- has the name of one of them and no record of its own, the count is written to what that property
-- holds: it becomes NaN, and never reaches the limit.
abbrev pub on_prototype : String → Bool
on_prototype user = any (str_eq user) (
    "constructor" ∷ "__proto__" ∷ "hasOwnProperty" ∷ "isPrototypeOf" ∷ "propertyIsEnumerable"
    ∷ "toLocaleString" ∷ "toString" ∷ "valueOf" ∷ "__defineGetter__" ∷ "__defineSetter__"
    ∷ "__lookupGetter__" ∷ "__lookupSetter__" ∷ [])

abbrev pub is_inherited : String → Option Attempt → Bool
is_inherited user none = on_prototype user
is_inherited user (some a) = false

unfoldable pub record_failure : ℕ → String → List (String × Attempt) → List (String × Attempt)
unfolding count_failure
record_failure now user attempts =
    if is_inherited user (lookup user attempts)
    then attempts
    else insert user (count_failure now (or_else (lookup user attempts) fresh)) attempts
