-- ===== src/Pipeline/Schedule.antt =====
-- boot.js: the loop of a second.
use aapda_sync.Base.{
  ℕ, zero, suc, ◌+◌, ◌-◌, ◌/◌, ◌≤◌, min, max, Bool, [], ◌∷◌, length, length-append, ◌≡◌, arith,
  if◌then◌else◌,
}
use aapda_sync.Pipeline.{Run, Loop, is_full, draws_event, quarters, each_second}

abbrev pub count : Bool → ℕ
count b = if b then 1 else 0

-- Of any four ticks in a row exactly one is full, and a tick that draws an event is full.
pub is_full-once :
    (n : ℕ)
    → (count (is_full n)
          + count (is_full (n + 1))
          + count (is_full (n + 2))
          + count (is_full (n + 3))
        ≡ 1)
      × (count (draws_event n) ≤ count (is_full n))
unfolding is_full draws_event
is_full-once n = (ground arith, ground arith)

length-quarters : (n : ℕ) → length (quarters n) ≡ n - 1
unfolding quarters
length-quarters zero = omega arith
length-quarters (suc zero) = omega arith
length-quarters (suc (suc n)) = omega (arith, length-quarters (suc n))

-- One callback takes as many steps as whole seconds have passed, at least one and at most 120.
pub each_second-steps :
    (now : ℕ) (l : Loop)
    → length (each_second now l).0 ≡ max 1 (min ((now - l.last_tick_at) / 1000) 120)
unfolding each_second
each_second-steps now l =
    let missed = min ((now - l.last_tick_at) / 1000) 120 in
    omega (
      arith,
      length-append (quarters missed)
          (Run.tick (is_full l.tick_count) (draws_event l.tick_count) ∷ []),
      length-quarters missed,
    )
