-- ===== src/Base/Sorts.antt =====
-- `xs.sort((a, b) => f(a) - f(b))` on whole numbers: ascending and with the same elements.
use Prim.Native.Nat.{ℕ, suc, ◌≤◌}
use mathlib.Core.Path.{◌≡◌, refl}
use mathlib.Core.Bool.{Bool, true, false}
use mathlib.Core.List.{List, [], ◌∷◌}
use mathlib.Core.Logic.{inl, inr}
use native.Mathlib.Omega.{arith}
use aapda_sync.Base.Tests.{Bool-cases, ltb, if◌then◌else◌}
use aapda_sync.Base.Lists.{length, All, any}

module _ {ℓ} {A : Type ℓ} (f : A → ℕ) where
  -- An element goes in before those that are not less than it, so that the sort is stable.
  unfoldable pub put : A → List A → List A
  put x [] = x ∷ []
  put x (y ∷ ys) = let rest = put x ys in if ltb (f y) (f x) then y ∷ rest else x ∷ y ∷ ys

  unfoldable pub sort_on : List A → List A
  sort_on [] = []
  sort_on (x ∷ xs) = put x (sort_on xs)

  abbrev pub IsAscending : List A → Type 0
  IsAscending [] = Unit
  IsAscending (x ∷ xs) = All (λ y. f x ≤ f y) xs × IsAscending xs

  put_behind : (x y : A) (ys : List A) → ltb (f y) (f x) ≡ true → put x (y ∷ ys) ≡ y ∷ put x ys
  unfolding put
  put_behind x y ys e = ground arith

  put_first : (x y : A) (ys : List A) → ltb (f y) (f x) ≡ false → put x (y ∷ ys) ≡ x ∷ y ∷ ys
  unfolding put
  put_first x y ys e = ground arith

  length-put : (x : A) (xs : List A) → length (put x xs) ≡ suc (length xs)
  unfolding put
  length-put x [] = refl
  length-put x (y ∷ ys) = ground (arith, length-put x ys)

  pub length-sort_on : (xs : List A) → length (sort_on xs) ≡ length xs
  unfolding sort_on
  length-sort_on [] = refl
  length-sort_on (x ∷ xs) = omega (arith, length-put x (sort_on xs), length-sort_on xs)

  any-put : (p : A → Bool) (x : A) (xs : List A) → any p (put x xs) ≡ any p (x ∷ xs)
  unfolding put
  any-put p x [] = refl
  any-put p x (y ∷ ys) = ground (arith, any-put p x ys)

  pub any-sort_on : (p : A → Bool) (xs : List A) → any p (sort_on xs) ≡ any p xs
  unfolding sort_on
  any-sort_on p [] = refl
  any-sort_on p (x ∷ xs) = ground (arith, any-put p x (sort_on xs), any-sort_on p xs)

  above_trans : (n m : ℕ) (xs : List A) → n ≤ m → All (λ y. m ≤ f y) xs → All (λ y. n ≤ f y) xs
  above_trans n m [] h k = tt
  above_trans n m (x ∷ xs) h k = (omega (arith, k.0), above_trans n m xs h k.1)

  above-put :
      (n : ℕ) (x : A) (xs : List A)
      → n ≤ f x
      → All (λ y. n ≤ f y) xs
      → All (λ y. n ≤ f y) (put x xs)
  unfolding put
  above-put n x [] h k = (h, tt)
  above-put n x (y ∷ ys) h k = elim (Bool-cases (ltb (f y) (f x))) [
    | inl e ↦ rw (put_behind x y ys e) (k.0, above-put n x ys h k.1)
    | inr e ↦ rw (put_first x y ys e) (h, (k.0, k.1))
  ]

  put-IsAscending : (x : A) (xs : List A) → IsAscending xs → IsAscending (put x xs)
  unfolding put
  put-IsAscending x [] h = (tt, tt)
  put-IsAscending x (y ∷ ys) h = elim (Bool-cases (ltb (f y) (f x))) [
    | inl e ↦
        rw (put_behind x y ys e) (above-put (f y) x ys (ground arith) h.0, put-IsAscending x ys h.1)
    | inr e ↦
        rw (put_first x y ys e) ((ground arith, above_trans (f x) (f y) ys (ground arith) h.0), h)
  ]

  pub sort_on-IsAscending : (xs : List A) → IsAscending (sort_on xs)
  unfolding sort_on
  sort_on-IsAscending [] = tt
  sort_on-IsAscending (x ∷ xs) = put-IsAscending x (sort_on xs) (sort_on-IsAscending xs)
