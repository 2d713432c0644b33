-- ===== src/Memorial/Gallery/Steps.antt =====
-- memorial.js `galTo` and `galGo`: the slide in front is one of the gallery's.
use native.Mathlib.Nat.{mod-lt, mod-eq_of_lt, mod-add-mod, add-mod_right, mod_self}
use aapda_sync.Base.Int.{ℤ, pos, negsuc, sub_ℕ, ◌+ℤ◌}
use aapda_sync.Base.{
  ℕ, zero, suc, ◌+◌, ◌-◌, ◌%◌, ◌≤◌, ◌<◌, ◌≡◌, refl, ap, ◌∙◌, arith, if◌then◌else◌, nat_eq,
}
use aapda_sync.Slideshow.{wrap}
use aapda_sync.Memorial.Gallery.{Gallery, gal_to, gal_go, InRange}

again : (n i : ℕ) → (i % n + n) % n ≡ i % n
again n i = mod-add-mod i n n ∙ add-mod_right i n

add_pos : (a b : ℕ) → pos a +ℤ pos b ≡ pos (a + b)
unfolding ◌+ℤ◌
add_pos a b = ground arith

add_behind : (a n : ℕ) → a ≤ n → sub_ℕ 0 a +ℤ pos n ≡ pos (n - a)
unfolding ◌+ℤ◌
add_behind a n h = ground arith

-- What `wrap` gives, in whole numbers that are not negative.
wrap_pos : (n i : ℕ) → wrap n (pos i) ≡ pos (i % n)
wrap_pos n i = rw (add_pos (i % n) n) (ap pos (again n i))

wrap_negsuc : (n i : ℕ) → 0 < n → wrap n (negsuc i) ≡ pos ((n - suc i % n) % n)
wrap_negsuc n i h = rw (add_behind (suc i % n) n (omega (arith, mod-lt (suc i) h))) refl

wrap-InRange : (n : ℕ) (i : ℤ) → 0 < n → InRange n (wrap n i)
wrap-InRange n (pos i) h = rw (wrap_pos n i) (mod-lt i h)
wrap-InRange n (negsuc i) h = rw (wrap_negsuc n i h) (mod-lt (n - suc i % n) h)

-- The slide behind and the slide before, in a gallery of `n`.
abbrev behind : (n k : ℕ) → ℕ
behind n k = if nat_eq (suc k) n then 0 else suc k

abbrev before : (n k : ℕ) → ℕ
before n zero = n - 1
before n (suc k) = k

mod_small : (n k : ℕ) → k < n → k % n ≡ k
mod_small n k h = mod-eq_of_lt h

wrap-behind : (n k : ℕ) → k < n → wrap n (pos k +ℤ pos 1) ≡ pos (behind n k)
wrap-behind n k h =
    rw (add_pos k 1, wrap_pos n (k + 1)) (ground (arith, mod_self n, mod_small n (k + 1)))

less_pos : (k : ℕ) → pos (suc k) +ℤ negsuc 0 ≡ pos k
unfolding ◌+ℤ◌
less_pos k = ground arith

last : (n : ℕ) → 0 < n → (n - 1 % n) % n ≡ n - 1
last zero h = elim h [ ]
last (suc zero) h = omega arith
last (suc (suc n)) h =
    ap (λ a. (suc (suc n) - a) % suc (suc n)) (mod_small (suc (suc n)) 1 (omega arith))
    ∙ mod_small (suc (suc n)) (suc (suc n) - 1) (omega arith)

wrap-before : (n k : ℕ) → k < n → wrap n (pos k +ℤ negsuc 0) ≡ pos (before n k)
unfolding ◌+ℤ◌
wrap-before n zero h = rw (wrap_negsuc n 0 h) (ap pos (last n h))
wrap-before n (suc k) h = rw (less_pos k, wrap_pos n k) (ap pos (mod_small n k (omega arith)))

before-behind : (n k : ℕ) → k < n → before n (behind n k) ≡ k
before-behind n k h = ground arith

before_lt : (n k : ℕ) → k < n → before n k < n
before_lt n zero h = omega arith
before_lt n (suc k) h = omega arith

behind-before : (n k : ℕ) → k < n → behind n (before n k) ≡ k
behind-before n zero h = ground arith
behind-before n (suc k) h = ground arith

-- A step on and a step back, or back and on, return to the slide that was in front; and after every
-- step the number of the slide is one of the gallery's.
pub gal_go-gal_go :
    (n k : ℕ) (g : Gallery)
    → k < n
    → g.idx ≡ pos k
    → ((gal_go n (negsuc 0) (gal_go n (pos 1) g)).idx ≡ pos k)
      × ((gal_go n (pos 1) (gal_go n (negsuc 0) g)).idx ≡ pos k)
      × InRange n (gal_go n (pos 1) g).idx
      × InRange n (gal_go n (negsuc 0) g).idx
unfolding gal_go gal_to
gal_go-gal_go n k g h e =
    rw (e, wrap-behind n k h, wrap-before n k h)
      (
        wrap-before n (behind n k) (ground arith) ∙ ap pos (before-behind n k h),
        wrap-behind n (before n k) (before_lt n k h) ∙ ap pos (behind-before n k h),
        ground arith,
        before_lt n k h,
      )
