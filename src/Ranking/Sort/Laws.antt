-- ===== src/Ranking/Sort/Laws.antt =====
-- What a merge and a sort return: the same elements, in order, and ties in the order they came in.
use mathlib.Core.List.{Perm, perm_middle, append-nil}
use mathlib.Core.List.Perm
use mathlib.Core.Path.{subst}
use aapda_sync.Base.{
  ℕ, zero, suc, ◌≤◌, ◌/◌, Bool, true, false, List, [], ◌∷◌, ◌++◌, length, take, drop, keep, All,
  inl, inr, length-take, length-drop, take-append-drop, Bool-cases, leb, leb→le, ◌≡◌, refl, sym,
  arith,
}
use aapda_sync.Ranking.Sort.{Stats, visit, compared, merge, sort_rec}

-- What the test of a merge has to satisfy: nothing is before what is before it, and what is not
-- before something is not before anything that this is not before.
pub record IsOrder {ℓ} {A : Type ℓ} (before : A → A → Bool) : Type ℓ where
  pub asymm : (x y : A) → before x y ≡ true → before y x ≡ false
  pub not_trans : (x y z : A) → before y x ≡ false → before z y ≡ false → before z x ≡ false

module _ {ℓ} {A : Type ℓ} (before : A → A → Bool) where
  -- Nothing that follows an element is before it.
  abbrev pub NotAfter : A → A → Type 0
  NotAfter x y = before y x ≡ false

  abbrev pub IsSorted : List A → Type 0
  IsSorted [] = Unit
  IsSorted (x ∷ xs) = All (NotAfter x) xs × IsSorted xs

  -- Which head a merge takes, and whether a sort splits.
  pub merge_right :
      (x y : A) (xs ys : List A)
      → before y x ≡ true
      → merge before (x ∷ xs) (y ∷ ys)
        ≡ (y ∷ (merge before (x ∷ xs) ys).0, suc (merge before (x ∷ xs) ys).1)
  unfolding merge
  merge_right x y xs ys e = ground arith

  pub merge_left :
      (x y : A) (xs ys : List A)
      → before y x ≡ false
      → merge before (x ∷ xs) (y ∷ ys)
        ≡ (x ∷ (merge before xs (y ∷ ys)).0, suc (merge before xs (y ∷ ys)).1)
  unfolding merge
  merge_left x y xs ys e = ground arith

  pub sort_rec_short :
      (fuel : ℕ) (a : List A) (d : ℕ) (stats : Stats)
      → leb (length a) 1 ≡ true
      → sort_rec before (suc fuel) a d stats ≡ (a, visit d stats)
  unfolding sort_rec
  sort_rec_short fuel a d stats e = ground arith

  -- The two halves, one sorted after the other, and their merge.
  abbrev pub sort_halves : ℕ → List A → ℕ → Stats → List A × Stats
  sort_halves fuel a d stats =
      let l = sort_rec before fuel (take (length a / 2) a) (suc d) (visit d stats) in
      let r = sort_rec before fuel (drop (length a / 2) a) (suc d) l.1 in
      let out = merge before l.0 r.0 in (out.0, compared out.1 r.1)

  pub sort_rec_long :
      (fuel : ℕ) (a : List A) (d : ℕ) (stats : Stats)
      → leb (length a) 1 ≡ false
      → sort_rec before (suc fuel) a d stats ≡ sort_halves fuel a d stats
  unfolding sort_rec
  sort_rec_long fuel a d stats e = ground arith

  pub merge-perm : (xs ys : List A) → Perm (merge before xs ys).0 (xs ++ ys)
  unfolding merge
  merge-perm [] ys = Perm.rfl
  merge-perm (x ∷ xs) [] = rw append-nil Perm.rfl
  merge-perm (x ∷ xs) (y ∷ ys) = elim (Bool-cases (before y x)) [
    | inl e ↦
        rw (merge_right x y xs ys e)
          (Perm.trans (Perm.cons y (merge-perm (x ∷ xs) ys)) (Perm.symm (perm_middle (x ∷ xs) ys)))
    | inr e ↦ rw (merge_left x y xs ys e) (Perm.cons x (merge-perm xs (y ∷ ys)))
  ]

  -- A predicate of two lists' elements holds of their merge's.
  All-merge : (P : A → Type 0) (xs ys : List A) → All P xs → All P ys → All P (merge before xs ys).0
  unfolding merge
  All-merge P [] ys p q = q
  All-merge P (x ∷ xs) [] p q = p
  All-merge P (x ∷ xs) (y ∷ ys) p q = elim (Bool-cases (before y x)) [
    | inl e ↦ rw (merge_right x y xs ys e) (q.0, All-merge P (x ∷ xs) ys p q.1)
    | inr e ↦ rw (merge_left x y xs ys e) (p.0, All-merge P xs (y ∷ ys) p.1 q)
  ]

  -- What holds of lists of one element at most, and of a merge when it holds of its halves, holds of
  -- the sort's result, given as much fuel as there are elements.
  pub sort_rec-induction {κ} :
      (P : List A → List A → Type κ)
      → ((a : List A) → length a ≤ 1 → P a a)
      → ((xs ys l r : List A) → P xs l → P ys r → P (xs ++ ys) (merge before l r).0)
      → (fuel : ℕ) (a : List A) (d : ℕ) (stats : Stats) → length a ≤ fuel
      → P a (sort_rec before fuel a d stats).0
  unfolding sort_rec
  sort_rec-induction P base step zero a d stats h = base a (omega arith)
  sort_rec-induction P base step (suc fuel) a d stats h = elim (Bool-cases (leb (length a) 1)) [
    | inl e ↦ rw (sort_rec_short fuel a d stats e) (base a (leb→le (length a) 1 e))
    | inr e ↦
        let mid = length a / 2 in
        let l = sort_rec before fuel (take mid a) (suc d) (visit d stats) in
        let r = sort_rec before fuel (drop mid a) (suc d) l.1 in
        let long : 2 ≤ length a = ground arith in
        let left =
          sort_rec-induction P base step fuel (take mid a) (suc d) (visit d stats)
            (omega (arith, length-take mid a)) in
        let right =
          sort_rec-induction P base step fuel (drop mid a) (suc d) l.1
            (omega (arith, length-drop mid a)) in
        rw (sort_rec_long fuel a d stats e) (
          subst (λ b. P b (merge before l.0 r.0).0) (take-append-drop mid a)
            (step (take mid a) (drop mid a) l.0 r.0 left right))
  ]

  pub sort_rec-perm :
      (fuel : ℕ) (a : List A) (d : ℕ) (stats : Stats)
      → length a ≤ fuel
      → Perm a (sort_rec before fuel a d stats).0
  sort_rec-perm =
      sort_rec-induction Perm (λ a h. Perm.rfl)
        λ xs ys l r p q. Perm.trans (Perm.append p q) (Perm.symm (merge-perm l r))

module _ {ℓ} {A : Type ℓ} (before : A → A → Bool) (order : IsOrder before) where
  -- What is not after the head of a sorted list is not after any of it.
  NotAfter-All :
      (x y : A) (ys : List A)
      → NotAfter before x y
      → All (NotAfter before y) ys
      → All (NotAfter before x) ys
  NotAfter-All x y [] h k = tt
  NotAfter-All x y (z ∷ ys) h k = (order.not_trans x y z h k.0, NotAfter-All x y ys h k.1)

  pub merge-IsSorted :
      (xs ys : List A)
      → IsSorted before xs
      → IsSorted before ys
      → IsSorted before (merge before xs ys).0
  unfolding merge
  merge-IsSorted [] ys s t = t
  merge-IsSorted (x ∷ xs) [] s t = s
  merge-IsSorted (x ∷ xs) (y ∷ ys) s t = elim (Bool-cases (before y x)) [
    | inl e ↦
        let first = order.asymm y x e in
        rw (merge_right before x y xs ys e) (
          All-merge before (NotAfter before y) (x ∷ xs) ys (first, NotAfter-All y x xs first s.0)
              t.0,
          merge-IsSorted (x ∷ xs) ys s t.1,
        )
    | inr e ↦ rw (merge_left before x y xs ys e) (
      All-merge before (NotAfter before x) xs (y ∷ ys) s.0 (e, NotAfter-All x y ys e t.0),
      merge-IsSorted xs (y ∷ ys) s.1 t,
    )
  ]

  -- The elements that satisfy a test, where those that satisfy it tie with one another.
  abbrev pub Ties : (A → Bool) → Type ℓ
  Ties p = (x y : A) → p x ≡ true → p y ≡ true → before x y ≡ false

  -- What a tie is before does not belong to the ties.
  not_tied : (p : A → Bool) (y z : A) → Ties p → p y ≡ true → before y z ≡ true → p z ≡ false
  not_tied p y z ties py e = ground (arith, ties y z)

  -- None of a sorted list ties with what is before its head.
  keep-before :
      (p : A → Bool) (y x : A) (xs : List A)
      → Ties p
      → p y ≡ true
      → before y x ≡ true
      → All (NotAfter before x) xs
      → keep p xs ≡ []
  keep-before p y x [] ties py e s = refl
  keep-before p y x (z ∷ xs) ties py e s =
      let after : before y z ≡ true = ground (arith, order.not_trans x z y s.0) in
      ground (arith, not_tied p y z ties py after, keep-before p y x xs ties py e s.1)

  pub keep-merge :
      (p : A → Bool) (xs ys : List A)
      → Ties p
      → IsSorted before xs
      → keep p (merge before xs ys).0 ≡ keep p xs ++ keep p ys
  unfolding merge
  keep-merge p [] ys ties s = refl
  keep-merge p (x ∷ xs) [] ties s = sym (append-nil (keep p (x ∷ xs)))
  keep-merge p (x ∷ xs) (y ∷ ys) ties s = elim (Bool-cases (before y x)) [
    | inl e ↦ rw (merge_right before x y xs ys e) (
        ground
          (arith, keep-merge p (x ∷ xs) ys ties s, not_tied p y x ties, keep-before p y x xs ties))
    | inr e ↦ rw (merge_left before x y xs ys e) (ground (arith, keep-merge p xs (y ∷ ys) ties s.1))
  ]
