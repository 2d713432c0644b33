-- ===== src/Ranking/ScoreBounds.antt =====
-- data.js, `computePriorities`: how large a score can be.
use native.Mathlib.Nat.{mul-le-mul_right, div-lt_iff_lt-mul, mul_comm, suc-mul}
use aapda_sync.Base.{ℕ, suc, ◌+◌, ◌*◌, ◌≤◌, Option, none, some, String, ◌≡◌, arith}
use aapda_sync.Base.Fractions.{Fraction, frac, at_most_one, rounded}
use aapda_sync.Ranking.Score.{
  Ground, contribution, time_to_hazard, total_score, vulnerability, vulnerability_sum,
  accessibility, evac_min, routes_out, time_to_impact, in_footprint,
}

rounded_le : (scale : ℕ) (x : Fraction) → x.num ≤ x.den → 1 ≤ x.den → rounded scale x ≤ scale
rounded_le scale x h p =
    let d = 2 * x.den in
    let scaled : 2 * x.num * scale ≤ d * scale = mul-le-mul_right scale (omega arith) in
    let next : suc scale * d ≡ scale * d + d = suc-mul scale d in
    let same : scale * d ≡ d * scale = mul_comm scale d in
    let below =
      (div-lt_iff_lt-mul {k = d} {x = 2 * x.num * scale + x.den} {y = suc scale} (omega arith)).1
        (omega (arith, scaled, next, same)) in
    omega (arith, below)

-- A fraction of one contributes its weight at most.
contribution_le :
    (x : Fraction) (weight : ℕ) → x.num ≤ x.den → 1 ≤ x.den → contribution x weight ≤ weight * 10000
unfolding contribution
contribution_le x weight h p = rounded_le (weight * 10000) x h p

-- A fraction that is a number, and one that is at most one besides.
abbrev pub IsNumber : Fraction → Type 0
IsNumber x = 1 ≤ x.den

abbrev IsShare : Fraction → Type 0
IsShare x = (x.num ≤ x.den) × (1 ≤ x.den)

at_most_one-IsShare : (x : Fraction) → IsNumber x → IsShare (at_most_one x)
at_most_one-IsShare x h = (omega arith, h)

time_to_hazard-IsShare :
    (log_share : Fraction → Fraction) (decay : ℕ → Fraction) (t : Option ℕ)
    → ((h : ℕ) → IsNumber (decay h))
    → IsShare (time_to_hazard log_share decay t)
unfolding time_to_hazard
time_to_hazard-IsShare log_share decay none p = (omega arith, omega arith)
time_to_hazard-IsShare log_share decay (some h) p = let own = p h in (ground arith, ground arith)

vulnerability-IsShare : (slope : ℕ) → IsShare (vulnerability slope)
unfolding vulnerability
vulnerability-IsShare slope =
    let share = frac (vulnerability_sum slope * 106) 9000000 in
    (rounded_le 10000 (at_most_one share) (omega arith) (omega arith), omega arith)

accessibility-IsShare : (routes : ℕ) → IsShare (accessibility routes)
unfolding accessibility
accessibility-IsShare routes = (ground arith, ground arith)

share_le : (x : Fraction) (weight : ℕ) → IsShare x → contribution x weight ≤ weight * 10000
share_le x weight h = contribution_le x weight h.0 h.1

-- A score is at most one million millionths, whatever the cell is like: the weights are hundred
-- hundredths together, and no term counts for more than one. Of the logarithm and the exponential
-- only this is used, that they are numbers.
pub total_score-le :
    (log_share : Fraction → Fraction) (decay : ℕ → Fraction) (hazard : String)
    (risk probability : ℕ) (cell : Ground)
    → ((x : Fraction) → IsNumber (log_share x))
    → ((h : ℕ) → IsNumber (decay h))
    → total_score log_share decay hazard risk probability cell ≤ 1000000
unfolding total_score
total_score-le log_share decay hazard risk probability cell p q =
    let routes = routes_out cell.slope_deg in
    let expected = frac (in_footprint hazard cell * probability) 1000 in
    let time = time_to_hazard log_share decay (time_to_impact hazard cell) in
    let r =
      share_le (at_most_one (frac risk 100)) 30
        (at_most_one-IsShare (frac risk 100) (omega arith)) in
    let e =
      share_le (at_most_one (log_share expected)) 22
        (at_most_one-IsShare (log_share expected) (p expected)) in
    let v = share_le (vulnerability cell.slope_deg) 18 (vulnerability-IsShare cell.slope_deg) in
    let m =
      share_le (at_most_one (frac (evac_min routes) 90)) 12
        (at_most_one-IsShare (frac (evac_min routes) 90) (omega arith)) in
    let t =
      share_le time 13 (time_to_hazard-IsShare log_share decay (time_to_impact hazard cell) q) in
    let a = share_le (accessibility routes) 5 (accessibility-IsShare routes) in
    omega (arith, r, e, v, m, t, a)
