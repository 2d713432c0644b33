-- ===== src/Connection/Backoff.antt =====
-- live.js, `liveScheduleReconnect`: the delay.
use native.Mathlib.Nat.{pow-suc, pow-le-pow_right, mul_comm, mul-le-mul_left, div-le_of_le-mul}
use mathlib.Core.Path.{subst}
use aapda_sync.Base.{ℕ, suc, ◌+◌, ◌*◌, ◌/◌, ◌^◌, ◌≤◌, min, ◌≡◌, arith}
use aapda_sync.Connection.{ceiling}

-- The ceiling of the delay doubles with each attempt until it stays at thirty seconds, which it does
-- from the sixth attempt on.
pub ceiling-suc :
    (k : ℕ) → (ceiling (suc k) ≡ min (2 * ceiling k) 30000) × (ceiling (k + 6) ≡ 30000)
unfolding ceiling
ceiling-suc k =
    let large : 2 ^ 6 ≤ 2 ^ (k + 6) = pow-le-pow_right (omega arith) {i = 6} (omega arith) in
    (omega (arith, pow-suc 2 k), omega (arith, large))

-- A delay that is a fraction of the ceiling is at most thirty seconds.
pub delay_le : (k n d : ℕ) → n ≤ d → ceiling k * n / d ≤ 30000
unfolding ceiling
delay_le k n d h =
    let scaled : ceiling k * n ≤ d * ceiling k =
      subst (λ m. ceiling k * n ≤ m) (mul_comm (ceiling k) d) (mul-le-mul_left (ceiling k) h) in
    omega (arith, div-le_of_le-mul d scaled)
