-- ===== src/States/Hash.antt =====
-- states.js `zhash`. The characters of the texts that are hashed are single UTF-16 units.
use Prim.Native.Nat.{bit_xor}
use Prim.Native.String.{String, [], ◌∷◌}
use Prim.Native.Char.{code}
use aapda_sync.Base.{ℕ, ◌*◌, ◌%◌, ◌^◌, ◌<◌, arith}
use aapda_sync.Base.Fractions.{Fraction, frac}
use native.Mathlib.Nat.{mod-lt}

-- The loop over the text; `Math.imul` keeps the low 32 bits.
unfoldable pub hashed : ℕ → String → ℕ
hashed h [] = h
hashed h (c ∷ s) = hashed (bit_xor h (code c) * 16777619 % 2 ^ 32) s

-- `zhash(s)` in hundred thousandths.
unfoldable pub zhash : String → ℕ
zhash s = hashed 2166136261 s % 2 ^ 32 % 100000

abbrev pub share : String → Fraction
share s = frac (zhash s) 100000

pub zhash-lt : (s : String) → zhash s < 100000
unfolding zhash
zhash-lt s = mod-lt (hashed 2166136261 s % 2 ^ 32) (omega arith)
