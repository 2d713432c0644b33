-- ===== src/Ranking/Sort.antt =====
-- data.js, `mergeSort`, with the counters that it keeps in SORT_STATS. `before` is the test of the
-- merge, `cmp(key(x), key(y)) < 0`.
pub mod Laws
pub mod Cost
pub mod Sorted
use aapda_sync.Base.{
  ℕ, zero, suc, ◌+◌, ◌/◌, max, Bool, true, false, List, [], ◌∷◌, length, take, drop, leb, nat_eq,
  if◌then◌else◌,
}

pub record Stats : Type 0 where
  pub n : ℕ
  pub comparisons : ℕ
  pub depth : ℕ

-- `SORT_STATS.depth = Math.max(SORT_STATS.depth, d)`
abbrev pub visit : ℕ → Stats → Stats
visit d stats = record stats { depth = max stats.depth d }

-- `SORT_STATS.comparisons++`, as often as a merge does it.
abbrev pub compared : ℕ → Stats → Stats
compared k stats = record stats { comparisons = stats.comparisons + k }

module _ {ℓ} {A : Type ℓ} (before : A → A → Bool) where
  -- The loop of the merge and the `concat` after it, with the number of its comparisons. An element
  -- of the right half goes first only if it is strictly before the one of the left.
  unfoldable pub merge : List A → List A → List A × ℕ
  merge [] ys = (ys, 0)
  merge (x ∷ xs) [] = (x ∷ xs, 0)
  merge (x ∷ xs) (y ∷ ys) = elim (before y x) [
    | true ↦ let rest = merge (x ∷ xs) ys in (y ∷ rest.0, suc rest.1)
    | false ↦ let rest = merge xs (y ∷ ys) in (x ∷ rest.0, suc rest.1)
  ]

  -- `rec(a, d)`, on fuel.
  unfoldable pub sort_rec : ℕ → List A → ℕ → Stats → List A × Stats
  sort_rec zero a d stats = (a, visit d stats)
  sort_rec (suc fuel) a d stats = elim (leb (length a) 1) [
    | true ↦ (a, visit d stats)
    | false ↦
        let mid = length a / 2 in
        let l = sort_rec fuel (take mid a) (suc d) (visit d stats) in
        let r = sort_rec fuel (drop mid a) (suc d) l.1 in
        let out = merge l.0 r.0 in (out.0, compared out.1 r.1)
  ]

  -- `mergeSort(arr, key)`. A call on fewer elements than the last one needs no more fuel.
  unfoldable pub merge_sort : List A → Stats → List A × Stats
  merge_sort arr stats =
      let n = if nat_eq stats.n 0 then length arr else stats.n in
      sort_rec (length arr) arr 0 (record stats { n = n })
