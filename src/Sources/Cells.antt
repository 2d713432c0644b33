-- ===== src/Sources/Cells.antt =====
-- livedata.js `applyToCells`, the risks: the observed score of a state goes down to its cells, and the
-- gap between a cell and its state stays.
use mathlib.Core.Path.{subst}
use aapda_sync.Base.{
  ℕ, ◌+◌, ◌-◌, ◌*◌, min, max, false, Option, none, some, String, List, [], ◌∷◌, ◌≡◌, refl, ap, ◌∙◌,
  arith, inl, inr, map, str_eq, str_eq_iff, str_eq_refl, lookup, lookup-insert, insert, Unique,
  Bool-cases,
}
use aapda_sync.Base.Int.{ℤ, pos, negsuc, ◌+ℤ◌, ◌-ℤ◌}
use aapda_sync.Base.Fractions.{frac, rounded}
use aapda_sync.Sources.Observed.{within_scale}

-- What `applyToCells` reads and writes of the risks of a cell; a negative risk is none. Probabilities
-- are in thousandths.
pub record Cell : Type 0 where
  pub risk : List (String × ℤ)
  pub anchor : List (String × ℕ)
  pub probability : List (String × ℕ)

-- `modelled[h] ?? c.risk[h]`
abbrev pub base_of : ℤ → Option ℕ → ℤ
base_of r none = r
base_of r (some m) = pos m

-- `c.anchor[h]`, for the score `live` of the state, if there is one; `none` where the cell is left.
abbrev pub anchored : (live modelled : Option ℕ) → ℤ → Option ℕ
anchored live modelled (negsuc r) = none
anchored none modelled (pos r) = none
anchored (some v) modelled (pos r) =
    some (within_scale (pos v +ℤ (pos r -ℤ base_of (pos r) modelled)))

abbrev pub put_anchor : String → Option ℕ → Cell → Cell
put_anchor h none c = c
put_anchor h (some v) c = record {
  risk = insert h (pos v) c.risk;
  anchor = insert h v c.anchor;
  probability = insert h (rounded 1000 (frac (v * 86) 10000)) c.probability;
}

module _ (live modelled : List (String × ℕ)) where
  -- The loop over the hazards of a cell.
  unfoldable pub apply_rows : List (String × ℤ) → Cell → Cell
  apply_rows [] c = c
  apply_rows ((h, r) ∷ rows) c =
      apply_rows rows (put_anchor h (anchored (lookup h live) (lookup h modelled) r) c)

  abbrev pub apply_to_cell : Cell → Cell
  apply_to_cell c = apply_rows c.risk c

  -- `applyToCells(id, o, modelled)`, the loop over the cells.
  abbrev pub apply_to_cells : List Cell → List Cell
  apply_to_cells cells = map apply_to_cell cells

  abbrev written : String → Option ℕ → Option ℤ → Option ℤ
  written h none before = before
  written h (some v) before = some (pos v)

  -- What the loop leaves of a hazard, for the risk that the loop meets.
  abbrev left : String → Option ℤ → Option ℤ → Option ℤ
  left h none before = before
  left h (some r) before = written h (anchored (lookup h live) (lookup h modelled) r) before

  put_anchor-same :
      (h : String) (o : Option ℕ) (c : Cell)
      → lookup h (put_anchor h o c).risk ≡ written h o (lookup h c.risk)
  put_anchor-same h none c = refl
  put_anchor-same h (some v) c = ground (arith, lookup-insert h h (pos v) c.risk, str_eq_iff h h)

  put_anchor-other :
      (j h : String) (o : Option ℕ) (c : Cell)
      → str_eq j h ≡ false
      → lookup h (put_anchor j o c).risk ≡ lookup h c.risk
  put_anchor-other j h none c e = refl
  put_anchor-other j h (some v) c e = lookup-insert j h (pos v) c.risk ∙ rw e refl

  lookup-apply_rows :
      (h : String) (rows : List (String × ℤ)) (c : Cell)
      → Unique rows
      → lookup h (apply_rows rows c).risk ≡ left h (lookup h rows) (lookup h c.risk)
  unfolding apply_rows lookup
  lookup-apply_rows h [] c u = refl
  lookup-apply_rows h ((j, r) ∷ rows) c u =
      let o = anchored (lookup j live) (lookup j modelled) r in
      let c' = put_anchor j o c in
      elim (Bool-cases (str_eq j h)) [
        | inl e ↦
            (let at_j =
                lookup-apply_rows j rows c' u.1
                ∙ ap (λ q. left j q (lookup j c'.risk)) u.0
                ∙ put_anchor-same j o c in
              subst
                (λ k.
                  lookup k (apply_rows ((j, r) ∷ rows) c).risk
                  ≡ left k (lookup k ((j, r) ∷ rows)) (lookup k c.risk))
                ((str_eq_iff j h).0 e) (rw (str_eq_refl j) at_j))
        | inr e ↦ rw e (
            lookup-apply_rows h rows c' u.1
            ∙ ap (left h (lookup h rows)) (put_anchor-other j h o c e))
      ]

  left-quiet : (k : String) (o before : Option ℤ) → lookup k live ≡ none → left k o before ≡ before
  left-quiet k none before e = refl
  left-quiet k (some (pos r)) before e = rw e refl
  left-quiet k (some (negsuc r)) before e = refl

  in_scale : (v m r : ℕ) → within_scale (pos v +ℤ (pos r -ℤ pos m)) ≡ max 2 (min 99 (v + r - m))
  unfolding within_scale ◌+ℤ◌ ◌-ℤ◌
  in_scale v m r = ground arith

  -- Where the live score of a hazard is `v` and its modelled one `m`, the cell's risk moves by as much;
  -- and the risk of a hazard with no live score stays.
  pub apply_to_cell-moved :
      (h k : String) (v m r : ℕ) (c : Cell)
      → Unique c.risk
      → lookup h c.risk ≡ some (pos r)
      → lookup h live ≡ some v
      → lookup h modelled ≡ some m
      → lookup k live ≡ none
      → (lookup h (apply_to_cell c).risk ≡ some (pos (max 2 (min 99 (v + r - m)))))
        × (lookup k (apply_to_cell c).risk ≡ lookup k c.risk)
  apply_to_cell-moved h k v m r c u e e' e'' quiet = (
    lookup-apply_rows h c.risk c u ∙ rw (e, e', e'') (ap (λ n. some (pos n)) (in_scale v m r)),
    lookup-apply_rows k c.risk c u ∙ left-quiet k (lookup k c.risk) (lookup k c.risk) quiet,
  )
