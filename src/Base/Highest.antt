-- ===== src/Base/Highest.antt =====
-- `xs.sort((a, b) => f(b) - f(a))`: the first element has the greatest value, and the elements are
-- those that were there.
use Prim.Native.Nat.{ℕ, ◌≤◌}
use mathlib.Core.Path.{◌≡◌, refl, ◌∙◌}
use mathlib.Core.Bool.{Bool, true, false}
use mathlib.Core.List.{List, [], ◌∷◌}
use mathlib.Core.Logic.{inl, inr}
use native.Mathlib.Omega.{arith}
use aapda_sync.Base.Tests.{Bool-cases, ltb}
use aapda_sync.Base.Lists.{any}
use aapda_sync.Base.Floats.{put_before, sort_by}

module _ {ℓ} {A : Type ℓ} (less : A → A → Bool) where
  before_put :
      (x y : A) (ys : List A)
      → less y x ≡ true
      → put_before less x (y ∷ ys) ≡ y ∷ put_before less x ys
  before_put x y ys e = rw (put_before, e) refl

  put_first : (x y : A) (ys : List A) → less y x ≡ false → put_before less x (y ∷ ys) ≡ x ∷ y ∷ ys
  put_first x y ys e = rw (put_before, e) refl

  pub any-put_before :
      (p : A → Bool) (x : A) (xs : List A) → any p (put_before less x xs) ≡ any p (x ∷ xs)
  any-put_before p x [] = refl
  any-put_before p x (y ∷ ys) = elim (Bool-cases (less y x)) [
    | inl e ↦ rw (before_put x y ys e) (ground (arith, any-put_before p x ys))
    | inr e ↦ rw (put_first x y ys e) refl
  ]

  pub any-sort_by : (p : A → Bool) (xs : List A) → any p (sort_by less xs) ≡ any p xs
  any-sort_by p [] = refl
  any-sort_by p (x ∷ xs) = ground (arith, any-put_before p x (sort_by less xs), any-sort_by p xs)

module _ {ℓ} {A : Type ℓ} (f : A → ℕ) where
  abbrev pub highest_first : List A → List A
  highest_first xs = sort_by (λ (a b : A). ltb (f b) (f a)) xs

  abbrev pub is_above : ℕ → List A → Bool
  is_above n xs = any (λ (y : A). ltb n (f y)) xs

  -- No element has a greater value than the first.
  abbrev pub IsLed : List A → Type 0
  IsLed [] = Unit
  IsLed (x ∷ xs) = is_above (f x) xs ≡ false

  pub is_above-le : (n m : ℕ) (xs : List A) → n ≤ m → is_above n xs ≡ false → is_above m xs ≡ false
  is_above-le n m [] h e = refl
  is_above-le n m (x ∷ xs) h e = ground (arith, is_above-le n m xs)

  put_before-IsLed :
      (x : A) (xs : List A) → IsLed xs → IsLed (put_before (λ (a b : A). ltb (f b) (f a)) x xs)
  put_before-IsLed x [] h = refl
  put_before-IsLed x (y ∷ ys) h = elim (Bool-cases (ltb (f x) (f y))) [
    | inl e ↦ rw (before_put (λ (a b : A). ltb (f b) (f a)) x y ys e) (
        any-put_before (λ (a b : A). ltb (f b) (f a)) (λ (z : A). ltb (f y) (f z)) x ys
        ∙ ground (arith))
    | inr e ↦
        rw (put_first (λ (a b : A). ltb (f b) (f a)) x y ys e)
          (ground (arith, is_above-le (f y) (f x) ys))
  ]

  pub highest_first-IsLed : (xs : List A) → IsLed (highest_first xs)
  highest_first-IsLed [] = tt
  highest_first-IsLed (x ∷ xs) = put_before-IsLed x (highest_first xs) (highest_first-IsLed xs)
