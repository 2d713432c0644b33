-- ===== src/Base/Hundredths.antt =====
-- A concrete `Floats` for examples: hundredths as whole numbers, not below zero.
use Prim.Native.Nat.{ℕ, ◌+◌, ◌-◌, ◌*◌, ◌/◌, min}
use native.Mathlib.Omega.{arith}
use aapda_sync.Base.Tests.{ltb}
use aapda_sync.Base.Floats.{Floats, IsOrdered}

abbrev pub hundredths : Floats
hundredths = record {
  Num = ℕ;
  lit = λ n d. n * 100 / d;
  add = λ a b. a + b;
  sub = λ a b. a - b;
  mul = λ a b. a * b / 100;
  div = λ a b. a * 100 / b;
  least = λ a b. min a b;
  hypot = λ a b. a + b;
  to_fixed = λ k a. a;
  round = λ a. a;
  lt = ltb;
}

pub hundredths-IsOrdered : IsOrdered hundredths
hundredths-IsOrdered = record { lt_irrefl = λ a. ground arith; lt_asymm = λ a b h. ground arith }
