-- ===== src/Assistant/Chosen.antt =====
-- rag.js: which passages `mmr` chooses.
use mathlib.Core.List.{Perm, append_assoc}
use mathlib.Core.List.Perm
use aapda_sync.Base.{
  ℕ, zero, suc, ◌+◌, ◌<◌, min, some, List, [], ◌∷◌, ◌++◌, ◌≡◌, refl, arith, length, take,
  length-take, length-append,
}
use aapda_sync.Base.Floats.{Floats}
use aapda_sync.Assistant.{splice, Scored, relevance, best_at, mmr_loop, mmr}

splice-takes {ℓ} :
    {A : Type ℓ} (i : ℕ) (xs : List A)
    → i < length xs
    → (y : A) × (ys : List A) × (splice i xs ≡ some (y, ys))
      × Perm (y ∷ ys) xs
      × (length xs ≡ suc (length ys))
unfolding splice
splice-takes i [] h = absurd (omega arith)
splice-takes zero (x ∷ xs) h = (x, xs, refl, Perm.rfl, refl)
splice-takes (suc i) (x ∷ xs) h =
    let (y, ys, e, p, n) = splice-takes i xs (omega arith) in
    (y, x ∷ ys, rw e refl, Perm.trans (Perm.swap x y ys) (Perm.cons x p), omega arith)

module _ (F : Floats) (log : F.Num → F.Num) where
  best_at_lt :
      (val : Scored F log → F.Num) (at : ℕ) (best : F.Num) (i : ℕ) (cs : List (Scored F log))
      → at < i
      → best_at F log val at best i cs < i + length cs
  unfolding best_at
  best_at_lt val at best i [] h = omega arith
  best_at_lt val at best i (c ∷ cs) h =
      let l = best_at_lt val i (val c) (suc i) cs (omega arith) in
      let r = best_at_lt val at best (suc i) cs (omega arith) in ground arith

  mmr_loop-next :
      (k : ℕ) (top : F.Num) (c : Scored F log) (cs chosen : List (Scored F log))
      (best : Scored F log) (pool : List (Scored F log))
      → splice
          (best_at F log (relevance F log top chosen) 0 (relevance F log top chosen c) 1 cs)
          (c ∷ cs)
        ≡ some (best, pool)
      → mmr_loop F log (suc k) top (c ∷ cs) chosen ≡ mmr_loop F log k top pool (chosen ++ best ∷ [])
  unfolding mmr_loop
  mmr_loop-next k top c cs chosen best pool e = rw (mmr_loop, e) refl

  mmr_loop-chooses :
      (k : ℕ) (top : F.Num) (pool chosen : List (Scored F log))
      → (rest : List (Scored F log)) × Perm
          (mmr_loop F log k top pool chosen ++ rest)
          (chosen ++ pool)
        × (length (mmr_loop F log k top pool chosen) ≡ length chosen + min k (length pool))
  unfolding mmr_loop
  mmr_loop-chooses zero top pool chosen = (pool, Perm.rfl, omega arith)
  mmr_loop-chooses (suc k) top [] chosen = ([], Perm.rfl, omega arith)
  mmr_loop-chooses (suc k) top (c ∷ cs) chosen =
      let val = relevance F log top chosen in
      let (best, pool, e, p, n) =
        splice-takes (best_at F log val 0 (val c) 1 cs) (c ∷ cs)
          (omega (arith, best_at_lt val 0 (val c) 1 cs (omega arith))) in
      let (rest, q, m) = mmr_loop-chooses k top pool (chosen ++ best ∷ []) in
      rw (mmr_loop-next k top c cs chosen best pool e) (
        rest,
        Perm.trans q (rw append_assoc (Perm.append (Perm.rfl {l = chosen}) p)),
        omega (arith, m, n, length-append chosen (best ∷ [])),
      )

  -- `mmr` chooses as many passages as it is asked for, or all of the first forty where there are
  -- fewer: with those that are left, they are the first forty, each of them once.
  pub mmr-chooses :
      (scored : List (Scored F log)) (k : ℕ)
      → (rest : List (Scored F log)) × Perm (mmr F log scored k ++ rest) (take 40 scored)
        × (length (mmr F log scored k) ≡ min k (min 40 (length scored)))
  unfolding mmr
  mmr-chooses [] k = ([], Perm.rfl, omega arith)
  mmr-chooses (s ∷ ss) k =
      let (rest, p, n) = mmr_loop-chooses k s.score (take 40 (s ∷ ss)) [] in
      (rest, p, omega (arith, n, length-take 40 (s ∷ ss)))
