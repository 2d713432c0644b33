-- ===== src/Ranking/Sort/Cost.antt =====
-- What a sort costs, in comparisons and in depth of recursion.
use native.Mathlib.Nat.{pow-suc, mul-add, suc-mul}
use aapda_sync.Base.{
  ℕ, zero, suc, ◌+◌, ◌*◌, ◌/◌, ◌^◌, ◌≤◌, Bool, true, max, List, [], ◌∷◌, length, take, drop,
  Bool-cases, length-take, length-drop, leb, nat_eq, if◌then◌else◌, ◌≡◌, inl, inr, refl, sym, ap,
  ◌∙◌, arith,
}
use aapda_sync.Ranking.Sort.{Stats, visit, merge, merge_sort, sort_rec}
use aapda_sync.Ranking.Sort.Laws.{sort_rec_short, sort_rec_long, merge_right, merge_left}

module _ {ℓ} {A : Type ℓ} (before : A → A → Bool) where
  merge-comparisons :
      (xs ys : List A)
      → (length (merge before xs ys).0 ≡ length xs + length ys)
        × ((merge before xs ys).1 ≤ length xs + length ys)
  unfolding merge
  merge-comparisons [] ys = (omega arith, omega arith)
  merge-comparisons (x ∷ xs) [] = (omega arith, omega arith)
  merge-comparisons (x ∷ xs) (y ∷ ys) = elim (Bool-cases (before y x)) [
    | inl e ↦
        let h = merge-comparisons (x ∷ xs) ys in
        rw (merge_right before x y xs ys e) (omega (arith, h.0), omega (arith, h.1))
    | inr e ↦
        let h = merge-comparisons xs (y ∷ ys) in
        rw (merge_left before x y xs ys e) (omega (arith, h.0), omega (arith, h.1))
  ]

  -- The result is as long as what is sorted, and a sort of at most `2 ^ k` elements adds `k`
  -- comparisons for each and goes `k` levels down.
  sort_rec-cost :
      (k fuel : ℕ) (a : List A) (d : ℕ) (stats : Stats)
      → length a ≤ 2 ^ k
      → length a ≤ fuel
      → (length (sort_rec before fuel a d stats).0 ≡ length a)
        × ((sort_rec before fuel a d stats).1.comparisons ≤ stats.comparisons + k * length a)
        × ((sort_rec before fuel a d stats).1.depth ≤ max stats.depth (d + k))
        × ((sort_rec before fuel a d stats).1.n ≡ stats.n)
  unfolding sort_rec
  sort_rec-cost k zero a d stats h f = (refl, omega arith, omega arith, refl)
  sort_rec-cost zero (suc fuel) a d stats h f =
      let short : leb (length a) 1 ≡ true = ground arith in
      rw (sort_rec_short before fuel a d stats short) (refl, omega arith, omega arith, refl)
  sort_rec-cost (suc k) (suc fuel) a d stats h f = elim (Bool-cases (leb (length a) 1)) [
    | inl e ↦ rw (sort_rec_short before fuel a d stats e) (refl, omega arith, omega arith, refl)
    | inr e ↦
        let long : 2 ≤ length a = ground arith in
        let xs = take (length a / 2) a in
        let ys = drop (length a / 2) a in
        let lx = length-take (length a / 2) a in
        let ly = length-drop (length a / 2) a in
        let total : length xs + length ys ≡ length a = omega arith in
        let scaled : k * length a ≡ k * length xs + k * length ys =
          sym (ap (k *◌) total) ∙ mul-add k (length xs) (length ys) in
        let left = sort_rec before fuel xs (suc d) (visit d stats) in
        let right = sort_rec before fuel ys (suc d) left.1 in
        let l =
          sort_rec-cost k fuel xs (suc d) (visit d stats) (omega (arith, pow-suc 2 k))
            (omega arith) in
        let r = sort_rec-cost k fuel ys (suc d) left.1 (omega (arith, pow-suc 2 k)) (omega arith) in
        let out = merge-comparisons left.0 right.0 in
        rw (sort_rec_long before fuel a d stats e) (
          omega (arith, out.0, l.0, r.0, total),
          omega (arith, out.1, l.0, r.0, l.1, r.1, scaled, suc-mul k (length a)),
          omega (arith, l.2, r.2),
          omega (arith, l.3, r.3),
        )
  ]

  -- `mergeSort` of at most `2 ^ k` elements makes at most `k` comparisons for each of them, and its
  -- recursion is `k` deep at most.
  pub merge_sort-cost :
      (k : ℕ) (arr : List A) (stats : Stats)
      → length arr ≤ 2 ^ k
      → ((merge_sort before arr stats).1.comparisons ≤ stats.comparisons + k * length arr)
        × ((merge_sort before arr stats).1.depth ≤ max stats.depth k)
        × ((merge_sort before arr stats).1.n ≡ (if nat_eq stats.n 0 then length arr else stats.n))
  unfolding merge_sort
  merge_sort-cost k arr stats h =
      let n = if nat_eq stats.n 0 then length arr else stats.n in
      let cost = sort_rec-cost k (length arr) arr 0 (record stats { n = n }) h (omega arith) in
      (cost.1, omega (arith, cost.2), cost.3)
