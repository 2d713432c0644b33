-- ===== src/Feed/Highest.antt =====
-- data.js, `nationalPeak`: the highest value in the country.
use mathlib.Core.Path.{subst}
use aapda_sync.Base.{
  ℕ, zero, suc, ◌≤◌, ltb, Bool-cases, Option, none, some, String, List, [], ◌∷◌, get_elem?, ◌≡◌,
  inl, inr, true, false, sym, ap, or_else, arith,
}
use aapda_sync.Feed.{Peak, better, national_peak}

-- There is a peak, and it is at least a value.
abbrev pub Reaches : ℕ → Option Peak → Type 0
Reaches v none = ⊥
Reaches v (some p) = v ≤ p.v

better_higher :
    (b : Peak) (id : String) (w : ℕ)
    → ltb b.v w ≡ true
    → better (some b) id (some w) ≡ some (record { id = id; v = w })
unfolding better
better_higher b id w e = ground arith

better_not_higher :
    (b : Peak) (id : String) (w : ℕ) → ltb b.v w ≡ false → better (some b) id (some w) ≡ some b
unfolding better
better_not_higher b id w e = ground arith

better-Reaches :
    (v : ℕ) (best : Option Peak) (id : String) (w : Option ℕ)
    → Reaches v best
    → Reaches v (better best id w)
unfolding better
better-Reaches v best id none h = h
better-Reaches v none id (some w) h = absurd h
better-Reaches v (some b) id (some w) h = elim (Bool-cases (ltb b.v w)) [
  | inl e ↦ rw (better_higher b id w e) (ground arith)
  | inr e ↦ rw (better_not_higher b id w e) h
]

better-own : (v : ℕ) (best : Option Peak) (id : String) → Reaches v (better best id (some v))
unfolding better
better-own v none id = omega arith
better-own v (some b) id = elim (Bool-cases (ltb b.v v)) [
  | inl e ↦ rw (better_higher b id v e) (omega arith)
  | inr e ↦ rw (better_not_higher b id v e) (ground arith)
]

national_peak-Reaches :
    (v : ℕ) (best : Option Peak) (states : List (String × Option ℕ))
    → Reaches v best
    → Reaches v (national_peak best states)
unfolding national_peak
national_peak-Reaches v best [] h = h
national_peak-Reaches v best ((id, w) ∷ states) h =
    national_peak-Reaches v (better best id w) states (better-Reaches v best id w h)

-- Every value that a state has is at most the national peak, and where a state has one there is a
-- peak.
pub national_peak-highest :
    (best : Option Peak) (states : List (String × Option ℕ)) (k : ℕ) (id : String) (v : ℕ)
    → get_elem? states k ≡ some (id, some v)
    → Reaches v (national_peak best states)
unfolding national_peak
national_peak-highest best [] k id v h = absurd (ground arith)
national_peak-highest best ((j, w) ∷ states) zero id v h =
    national_peak-Reaches v (better best j w) states (
      subst (λ x. Reaches v (better best j x))
        (sym (ap (λ (o : Option (String × Option ℕ)). (or_else o (j, w)).1) h))
        (better-own v best j))
national_peak-highest best ((j, w) ∷ states) (suc k) id v h =
    national_peak-highest (better best j w) states k id v h
