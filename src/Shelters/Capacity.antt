-- ===== src/Shelters/Capacity.antt =====
-- The capacity of a shelter: which limit is the tightest one, and that a shelter is never filled
-- beyond nine tenths.
use aapda_sync.Base.{
  ℕ, ◌+◌, ◌*◌, ◌/◌, ◌≤◌, ◌<◌, ◌≡◌, ◌↔◌, ◌⊎◌, inl, inr, refl, arith, Bool, true, false, List, max,
}
use aapda_sync.Shelters.{
  Limit, Condition, Standing, Candidates, candidates, tightest, Cell, Row, conditioned, mk_shelter,
  standing_of, zone_risk,
}

-- The places that a limit allows.
abbrev pub places : Limit → Candidates → ℕ
places Limit.space c = c.for_space
places Limit.water c = c.for_water
places Limit.food c = c.for_food
places Limit.medical c = c.for_medical

-- The place of a limit in the order of the candidates.
abbrev pub position : Limit → ℕ
position Limit.space = 0
position Limit.water = 1
position Limit.food = 2
position Limit.medical = 3

-- The loop finds a limit that allows as many places as it says, and no other limit is tighter, or
-- as tight and before it in the order of the candidates.
pub tightest-least :
    (c : Candidates) (k : Limit)
    → ((tightest c).1 ≡ places (tightest c).0 c)
      × (((tightest c).1 < places k c)
          ⊎ (((tightest c).1 ≡ places k c) × (position (tightest c).0 ≤ position k)))
unfolding tightest
tightest-least c Limit.space = ground arith
tightest-least c Limit.water = ground arith
tightest-least c Limit.food = ground arith
tightest-least c Limit.medical = ground arith

-- The candidates never allow more than the space does.
pub tightest-space : (c : Candidates) → (tightest c).1 ≤ c.for_space
unfolding tightest
tightest-space c = ground arith

conditioned-le :
    (state : Condition) (risk : ℕ) (best : Limit × ℕ) → (conditioned state risk best).0 ≤ best.1
unfolding conditioned
conditioned-le Condition.compromised risk best = omega arith
conditioned-le Condition.standby risk best = ground arith
conditioned-le Condition.ready risk best = ground arith

conditioned-not_operational :
    (state : Condition) (risk : ℕ) (best : Limit × ℕ)
    → (conditioned state risk best).1 ≡ false
    → (conditioned state risk best).0 ≡ 0
unfolding conditioned
conditioned-not_operational Condition.compromised risk best h = refl
conditioned-not_operational Condition.standby risk best h = ground arith
conditioned-not_operational Condition.ready risk best h = ground arith

conditioned-closed :
    (state : Condition) (risk : ℕ) (best : Limit × ℕ)
    → (state ≡ Condition.compromised) ⊎ (60 ≤ risk)
    → ((conditioned state risk best).0 ≡ 0) × ((conditioned state risk best).1 ≡ false)
unfolding conditioned
conditioned-closed Condition.compromised risk best h = (refl, refl)
conditioned-closed Condition.standby risk best (inl e) = absurd (ground arith)
conditioned-closed Condition.standby risk best (inr h) = ground arith
conditioned-closed Condition.ready risk best (inl e) = absurd (ground arith)
conditioned-closed Condition.ready risk best (inr h) = ground arith

standing_of-has_room :
    (operational : Bool) (eff : ℕ)
    → (operational ≡ false → eff ≡ 0)
    → (standing_of operational eff ≡ Standing.has_room) ↔ (0 < eff)
unfolding standing_of
standing_of-has_room true eff h = ground arith
standing_of-has_room false eff h =
    let none_left = h refl in (λ e. absurd (ground arith), λ k. absurd (omega arith))

-- The people in a shelter and the places it offers are together at most nine tenths of its
-- capacity, unless it holds more people already: then it offers none. And it is said to have room
-- exactly when it offers a place.
pub mk_shelter-capacity :
    (cells : List Cell) (r : Row)
    → ((mk_shelter cells r).effective_capacity + r.occ ≤ max r.occ (r.cap * 9 / 10))
      × (((mk_shelter cells r).standing ≡ Standing.has_room)
          ↔ (0 < (mk_shelter cells r).effective_capacity))
unfolding mk_shelter candidates
mk_shelter-capacity cells r =
    let c = candidates r.cap r.occ r.water r.food r.med in
    let risk = zone_risk cells r.zone in
    let left = conditioned r.state risk (tightest c) in
    (
      omega (arith, conditioned-le r.state risk (tightest c), tightest-space c),
      standing_of-has_room left.1 left.0 (conditioned-not_operational r.state risk (tightest c)),
    )

-- A shelter that is compromised, or whose zone has a risk of 60 or more, is closed and offers no
-- place.
pub mk_shelter-closed :
    (cells : List Cell) (r : Row)
    → (r.state ≡ Condition.compromised) ⊎ (60 ≤ zone_risk cells r.zone)
    → ((mk_shelter cells r).effective_capacity ≡ 0)
      × ((mk_shelter cells r).standing ≡ Standing.closed)
unfolding mk_shelter standing_of
mk_shelter-closed cells r h = ground (
  arith,
  conditioned-closed r.state (zone_risk cells r.zone)
      (tightest (candidates r.cap r.occ r.water r.food r.med)) h,
)
