-- ===== src/Base/Floats.antt =====
-- The numbers of the language where they are no integers: the operations of doubles that the code
-- uses, as a parameter. `lit n d` is the literal `n / d`.
use Prim.Native.Nat.{ℕ}
use mathlib.Core.Path.{◌≡◌}
use mathlib.Core.Bool.{Bool, true, false, not, ◌&&◌}
use mathlib.Core.List.{List, [], ◌∷◌}
use aapda_sync.Base.Tests.{if◌then◌else◌}

pub record Floats : Type 1 where
  pub Num : Type 0
  pub lit : ℕ → ℕ → Num
  pub add : Num → Num → Num
  pub sub : Num → Num → Num
  pub mul : Num → Num → Num
  pub div : Num → Num → Num
  pub least : Num → Num → Num
  pub hypot : Num → Num → Num
  pub to_fixed : ℕ → Num → Num
  pub round : Num → Num
  pub lt : Num → Num → Bool

-- `xs.sort((a, b) => key(a) - key(b))`, which is stable.
module _ {ℓ} {A : Type ℓ} (less : A → A → Bool) where
  -- The elements are put in from the last one to the first, so that one goes before those it ties with.
  abbrev pub put_before : A → List A → List A
  put_before x [] = x ∷ []
  put_before x (y ∷ ys) = elim (less y x) [ true ↦ y ∷ put_before x ys | false ↦ x ∷ y ∷ ys ]

  abbrev pub sort_by : List A → List A
  sort_by [] = []
  sort_by (x ∷ xs) = put_before x (sort_by xs)

-- `Math.max` of two doubles, and literals that are whole.
module _ (F : Floats) where
  abbrev pub num : ℕ → F.Num
  num n = F.lit n 1

  abbrev pub greatest : F.Num → F.Num → F.Num
  greatest a b = if F.lt a b then b else a

  abbrev pub is_nought : F.Num → Bool
  is_nought a = not (F.lt a (num 0)) && not (F.lt (num 0) a)

  -- What `<` does on doubles that are no NaN.
  pub record IsOrdered : Type 0 where
    pub lt_irrefl : (a : F.Num) → F.lt a a ≡ false
    pub lt_asymm : (a b : F.Num) → F.lt a b ≡ true → F.lt b a ≡ false
