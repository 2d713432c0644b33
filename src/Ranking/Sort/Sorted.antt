-- ===== src/Ranking/Sort/Sorted.antt =====
-- What `mergeSort` returns.
use mathlib.Core.List.{Perm}
use aapda_sync.Base.{◌≤◌, Bool, List, [], ◌∷◌, ◌++◌, length, keep, ◌≡◌, refl, arith}
use aapda_sync.Ranking.Sort.{Stats, merge, merge_sort}
use aapda_sync.Ranking.Sort.Laws.{
  IsOrder, IsSorted, Ties, sort_rec-induction, sort_rec-perm, merge-IsSorted, keep-merge,
}

module _ {ℓ} {A : Type ℓ} (before : A → A → Bool) where
  -- The sort loses nothing and invents nothing, whatever the test is.
  pub merge_sort-perm : (arr : List A) (stats : Stats) → Perm arr (merge_sort before arr stats).0
  unfolding merge_sort
  merge_sort-perm arr stats = sort_rec-perm before (length arr) arr 0 _ (omega arith)

keep-append {ℓ} :
    {A : Type ℓ} (p : A → Bool) (xs ys : List A) → keep p (xs ++ ys) ≡ keep p xs ++ keep p ys
keep-append p [] ys = refl
keep-append p (x ∷ xs) ys = ground (arith, keep-append p xs ys)

module _ {ℓ} {A : Type ℓ} (before : A → A → Bool) (order : IsOrder before) where
  -- A list is a sorted, stable arrangement of another.
  abbrev pub IsStableSort : List A → List A → Type ℓ
  IsStableSort a b =
      IsSorted before b × ((p : A → Bool) → Ties before order p → keep p b ≡ keep p a)

  short-IsStableSort : (a : List A) → length a ≤ 1 → IsStableSort a a
  short-IsStableSort [] h = (tt, λ p ties. refl)
  short-IsStableSort (x ∷ []) h = ((tt, tt), λ p ties. refl)
  short-IsStableSort (x ∷ y ∷ a) h = absurd (omega arith)

  merge-IsStableSort :
      (xs ys l r : List A)
      → IsStableSort xs l
      → IsStableSort ys r
      → IsStableSort (xs ++ ys) (merge before l r).0
  merge-IsStableSort xs ys l r s t = (
    merge-IsSorted before order l r s.0 t.0,
    λ p ties.
        rw (keep-merge before order p l r ties s.0, keep-append p xs ys, s.1 p ties, t.1 p ties)
          refl,
  )

  merge_sort-IsStableSort :
      (arr : List A) (stats : Stats) → IsStableSort arr (merge_sort before arr stats).0
  unfolding merge_sort
  merge_sort-IsStableSort arr stats =
      sort_rec-induction before IsStableSort short-IsStableSort merge-IsStableSort (length arr) arr
        0 _ (omega arith)

  -- The result of the sort is in order.
  pub merge_sort-IsSorted :
      (arr : List A) (stats : Stats) → IsSorted before (merge_sort before arr stats).0
  merge_sort-IsSorted arr stats = (merge_sort-IsStableSort arr stats).0

  -- The sort is stable: elements that tie with one another stand in the result in the order in which
  -- they came in.
  pub keep-merge_sort :
      (arr : List A) (stats : Stats) (p : A → Bool)
      → Ties before order p
      → keep p (merge_sort before arr stats).0 ≡ keep p arr
  keep-merge_sort arr stats = (merge_sort-IsStableSort arr stats).1
