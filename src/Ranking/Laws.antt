-- ===== src/Ranking/Laws.antt =====
-- data.js, `cmp` on the keys of zones: an order that `mergeSort` can sort by.
use Prim.Native.String.compare
use Prim.Native.String.{compare as compare_text, String, [], ◌∷◌}
use Prim.Native.Nat.{Ordering}
use aapda_sync.Base.{◌≡◌, ◌≢◌, true, false, arith}
use aapda_sync.Ranking.{text_before, zone_before, cmp, priority_key}
use aapda_sync.Ranking.Sort.Laws.{IsOrder}

compare-asymm : (s t : String) → compare_text s t ≡ Ordering.lt → compare_text t s ≢ Ordering.lt
compare-asymm [] [] h = rw compare.nil-nil (ground arith)
compare-asymm [] (d ∷ t) h = rw compare.cons-nil (ground arith)
compare-asymm (c ∷ s) [] h = absurd (ground (arith, compare.cons-nil c s))
compare-asymm (c ∷ s) (d ∷ t) h =
    rw compare.cons-cons (ground (arith, rw compare.cons-cons at h, compare-asymm s t))

compare-not_trans :
    (s t u : String)
    → compare_text t s ≢ Ordering.lt
    → compare_text u t ≢ Ordering.lt
    → compare_text u s ≢ Ordering.lt
compare-not_trans [] t [] h k = rw compare.nil-nil (ground arith)
compare-not_trans (c ∷ s) [] [] h k = absurd (h (compare.nil-cons c s))
compare-not_trans (c ∷ s) (d ∷ t) [] h k = absurd (k (compare.nil-cons d t))
compare-not_trans [] t (e ∷ u) h k = rw compare.cons-nil (ground arith)
compare-not_trans (c ∷ s) [] (e ∷ u) h k = absurd (h (compare.nil-cons c s))
compare-not_trans (c ∷ s) (d ∷ t) (e ∷ u) h k =
    rw compare.cons-cons (
      ground (arith, rw compare.cons-cons at h, rw compare.cons-cons at k, compare-not_trans s t u))

text_before-asymm : (s t : String) → text_before s t ≡ true → text_before t s ≡ false
text_before-asymm s t h = ground (arith, compare-asymm s t)

text_before-not_trans :
    (s t u : String) → text_before t s ≡ false → text_before u t ≡ false → text_before u s ≡ false
text_before-not_trans s t u h k = ground (arith, compare-not_trans s t u)

-- `cmp` of two keys is a strict order of the zones, up to ties.
pub zone_before-IsOrder : IsOrder zone_before
unfolding zone_before cmp priority_key
zone_before-IsOrder = record {
  asymm = λ x y h. ground (arith, text_before-asymm x.cell_id y.cell_id);
  not_trans = λ x y z h k. ground (
    arith,
    text_before-not_trans x.cell_id y.cell_id z.cell_id,
    text_before-asymm x.cell_id y.cell_id,
    text_before-asymm y.cell_id z.cell_id,
  );
}
