-- ===== src/Base/Dict.antt =====
-- An object used as a dictionary, `obj[key]` and `obj[key] = value`, as an association list.
use mathlib.Core.Path.{◌≡◌, refl}
use mathlib.Core.Option.{Option, none, some}
use mathlib.Core.List.{List, [], ◌∷◌}
use Prim.Native.String.{String}
use native.Mathlib.Omega.{arith}
use text.Mathlib.TextEquality.{eq_iff}
use aapda_sync.Base.Tests.{str_eq, if◌then◌else◌}

module _ {ℓ} {A : Type ℓ} where
  -- `obj[key]`
  unfoldable pub lookup : (key : String) → List (String × A) → Option A
  lookup key [] = none
  lookup key ((name, a) ∷ rest) = if str_eq name key then some a else lookup key rest

  -- `obj[key] = a`
  unfoldable pub insert : (key : String) → A → List (String × A) → List (String × A)
  insert key a [] = (key, a) ∷ []
  insert key a ((name, b) ∷ rest) =
      if str_eq name key then (key, a) ∷ rest else (name, b) ∷ insert key a rest

  -- Reading after a write.
  pub lookup-insert :
      (written read : String) (a : A) (dict : List (String × A))
      → lookup read (insert written a dict)
        ≡ (if str_eq written read then some a else lookup read dict)
  unfolding lookup insert
  lookup-insert written read a [] = refl
  lookup-insert written read a ((name, b) ∷ rest) =
      let ih = lookup-insert written read a rest in
      ground (arith, ih, eq_iff name read, eq_iff name written, eq_iff written read)

  -- `delete obj[key]`
  unfoldable pub erase : (key : String) → List (String × A) → List (String × A)
  erase key [] = []
  erase key ((name, b) ∷ rest) =
      let left = erase key rest in if str_eq name key then left else (name, b) ∷ left

  pub lookup-erase :
      (gone read : String) (dict : List (String × A))
      → lookup read (erase gone dict) ≡ (if str_eq gone read then none else lookup read dict)
  unfolding lookup erase
  lookup-erase gone read [] = ground arith
  lookup-erase gone read ((name, b) ∷ rest) =
      let ih = lookup-erase gone read rest in
      ground (arith, ih, eq_iff name read, eq_iff name gone, eq_iff gone read)

  -- A key stands once.
  abbrev pub Unique : List (String × A) → Type ℓ
  Unique [] = Unit
  Unique ((key, a) ∷ rest) = (lookup key rest ≡ none) × Unique rest

  pub insert-Unique :
      (key : String) (a : A) (dict : List (String × A)) → Unique dict → Unique (insert key a dict)
  unfolding lookup insert
  insert-Unique key a [] h = (refl, tt)
  insert-Unique key a ((name, b) ∷ rest) h = ground (
    arith,
    insert-Unique key a rest h.1,
    lookup-insert key name a rest,
    eq_iff name key,
    eq_iff key name,
  )

  pub erase-Unique :
      (key : String) (dict : List (String × A)) → Unique dict → Unique (erase key dict)
  unfolding lookup erase
  erase-Unique key [] h = tt
  erase-Unique key ((name, b) ∷ rest) h =
      ground (arith, erase-Unique key rest h.1, lookup-erase key name rest, eq_iff key name)
