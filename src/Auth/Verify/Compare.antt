-- ===== src/Auth/Verify/Compare.antt =====
-- The constant-time comparison decides equality.
use Prim.Native.Nat.{bit_or, bit_xor}
use aapda_sync.Base.{ℕ, true, List, [], ◌∷◌, length, ◌≡◌, refl, ◌↔◌, arith}
use aapda_sync.Base.Bits.{bit_or-eq-zero_iff, bit_xor-eq-zero_iff}
use aapda_sync.Auth.Verify.{difference, timing_safe_equal}

-- The difference that is kept is 0 exactly if it was 0 before and all bytes agree.
difference-eq-zero :
    (diff : ℕ) (a b : List ℕ) → length a ≡ length b → difference diff a b ≡ 0 → (diff ≡ 0) × (a ≡ b)
unfolding difference
difference-eq-zero diff [] [] h e = (e, refl)
difference-eq-zero diff [] (y ∷ ys) h e = absurd (omega arith)
difference-eq-zero diff (x ∷ xs) [] h e = absurd (omega arith)
difference-eq-zero diff (x ∷ xs) (y ∷ ys) h e =
    let (kept, rest) = difference-eq-zero (bit_or diff (bit_xor x y)) xs ys (omega arith) e in
    let (none_before, same) = (bit_or-eq-zero_iff diff (bit_xor x y)).0 kept in
    (none_before, cc ((bit_xor-eq-zero_iff x y).0 same))

difference_self : (a : List ℕ) → difference 0 a a ≡ 0
unfolding difference
difference_self [] = refl
difference_self (x ∷ xs) =
    rw ((bit_xor-eq-zero_iff x x).1 refl, (bit_or-eq-zero_iff 0 0).1 (refl, refl))
      (difference_self xs)

-- `timingSafeEqual` returns true exactly for two equal arrays.
pub timing_safe_equal_iff : (a b : List ℕ) → (timing_safe_equal a b ≡ true) ↔ (a ≡ b)
unfolding timing_safe_equal
timing_safe_equal_iff a b = (
  λ e. (difference-eq-zero 0 a b (ground arith) (ground arith)).1,
  λ h. rw (← h) (ground (arith, difference_self a)),
)
