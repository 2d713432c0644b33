-- ===== src/Memorial/Gallery/Offsets.antt =====
-- memorial.js `paintGallery`: where the slides stand.
use aapda_sync.Base.Int.{pos, negsuc, ◌+ℤ◌, ◌-ℤ◌, pos_part, neg_part}
use aapda_sync.Base.{ℕ, ◌-◌, ◌*◌, ◌≤◌, ◌<◌, ◌≡◌, ◌↔◌, arith, inl, inr, leb, Bool-cases}
use aapda_sync.Memorial.Gallery.{offset, twice}

offset_right : (n k i : ℕ) → k ≤ i → 2 * (i - k) ≤ n → offset n k i ≡ pos (i - k)
unfolding offset ◌+ℤ◌ ◌-ℤ◌
offset_right n k i h le = ground arith

offset_far_right :
    (n k i : ℕ) → k ≤ i → i < n → n < 2 * (i - k) → offset n k i ≡ negsuc (n - (i - k) - 1)
unfolding offset ◌+ℤ◌ ◌-ℤ◌
offset_far_right n k i h h' lt = ground arith

offset_left : (n k i : ℕ) → i < k → 2 * (k - i) ≤ n → offset n k i ≡ negsuc (k - i - 1)
unfolding offset ◌+ℤ◌ ◌-ℤ◌
offset_left n k i h le = ground arith

offset_far_left : (n k i : ℕ) → i < k → k < n → n < 2 * (k - i) → offset n k i ≡ pos (n - (k - i))
unfolding offset ◌+ℤ◌ ◌-ℤ◌
offset_far_left n k i h h' lt = ground arith

-- Of the slides, exactly the one in front stands in the middle, and none stands further than half
-- the gallery from it.
pub offset-near :
    (n k i : ℕ)
    → k < n
    → i < n
    → ((offset n k i ≡ pos 0) ↔ (i ≡ k))
      × (pos_part (twice (offset n k i)) ≤ n)
      × (neg_part (twice (offset n k i)) ≤ n)
unfolding ◌+ℤ◌
offset-near n k i h h' = elim (Bool-cases (leb k i)) [
  | inl e ↦ elim (Bool-cases (leb (2 * (i - k)) n)) [
    | inl e' ↦ rw (offset_right n k i (ground arith) (ground arith)) (ground arith)
    | inr e' ↦ rw (offset_far_right n k i (ground arith) h' (ground arith)) (ground arith)
  ]
  | inr e ↦ elim (Bool-cases (leb (2 * (k - i)) n)) [
    | inl e' ↦ rw (offset_left n k i (ground arith) (ground arith)) (ground arith)
    | inr e' ↦ rw (offset_far_left n k i (ground arith) h (ground arith)) (ground arith)
  ]
]
