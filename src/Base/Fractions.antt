-- ===== src/Base/Fractions.antt =====
-- Fractions that are not negative: what the source computes with doubles, where the result is rounded.
use Prim.Native.Nat.{ℕ, ◌+◌, ◌-◌, ◌*◌, ◌/◌, min}
use aapda_sync.Base.Tests.{if◌then◌else◌, ltb}

pub record Fraction : Type 0 where
  pub num : ℕ
  pub den : ℕ

abbrev pub frac : ℕ → ℕ → Fraction
frac n d = record { num = n; den = d }

-- `Math.min(x, 1)`
abbrev pub at_most_one : Fraction → Fraction
at_most_one x = record { num = min x.num x.den; den = x.den }

-- `Math.round(x * scale)`
abbrev pub rounded : ℕ → Fraction → ℕ
rounded scale x = (2 * x.num * scale + x.den) / (2 * x.den)

abbrev pub plus : Fraction → Fraction → Fraction
plus x y = frac (x.num * y.den + y.num * x.den) (x.den * y.den)

abbrev pub times : Fraction → Fraction → Fraction
times x y = frac (x.num * y.num) (x.den * y.den)

-- `Math.max(x, y)`
abbrev pub greater : Fraction → Fraction → Fraction
greater x y = if ltb (x.num * y.den) (y.num * x.den) then y else x

-- `Math.abs(x - y)`
abbrev pub distance : Fraction → Fraction → Fraction
distance x y =
    frac ((x.num * y.den - y.num * x.den) + (y.num * x.den - x.num * y.den)) (x.den * y.den)

-- `a + (b - a) * t`, for `a` at most `b`.
abbrev pub lerp : (a b : ℕ) → Fraction → Fraction
lerp a b t = frac (a * t.den + (b - a) * t.num) t.den
