-- ===== src/Memorial/Gallery.antt =====
-- memorial.js `galTo`, `galGo`, `galToggle`, `galDown`, `galMove`, `galUp`, the keys, and where
-- `paintGallery` puts each slide. The number of events is `n`.
pub mod Steps
pub mod Offsets
use aapda_sync.Base.Int.{ℤ, pos, negsuc, sub_ℕ, ◌+ℤ◌, ◌-ℤ◌, ltb_ℤ, pos_part, neg_part}
use aapda_sync.Base.{
  ℕ, zero, suc, ◌+◌, ◌-◌, ◌*◌, ◌%◌, ◌≤◌, ◌<◌, Bool, true, false, ◌&&◌, Option, none, some, List, [],
  ◌∷◌, ◌≡◌, ◌↔◌, refl, ap, ◌∙◌, arith, if◌then◌else◌, ltb, nat_eq, keep, not,
}
use aapda_sync.Slideshow.{wrap, rem}

-- `galIdx`, `galTimer`, `galDrag`, the intervals that the browser runs and the next id.
pub record Gallery : Type 0 where
  pub idx : ℤ
  pub timer : Option ℕ
  pub drag : Option (ℤ × ℤ)
  pub intervals : List ℕ
  pub next_id : ℕ

unfoldable pub gal_to : (n : ℕ) → ℤ → Gallery → Gallery
gal_to n i g = record g { idx = wrap n i }

unfoldable pub gal_go : (n : ℕ) → ℤ → Gallery → Gallery
gal_go n d g = gal_to n (g.idx +ℤ d) g

-- `galToggle()`, for the timer that runs.
unfoldable pub toggle_from : Option ℕ → Gallery → Gallery
toggle_from (some t) g = record g {
  timer = none;
  intervals = keep (λ r. not (nat_eq r t)) g.intervals;
}
toggle_from none g = record g {
  timer = some g.next_id;
  intervals = g.next_id ∷ g.intervals;
  next_id = suc g.next_id;
}

abbrev pub gal_toggle : Gallery → Gallery
gal_toggle g = toggle_from g.timer g

abbrev pub gal_down : ℤ → Gallery → Gallery
gal_down x g = record g { drag = some (x, pos 0) }

unfoldable pub move_from : Option (ℤ × ℤ) → ℤ → Gallery → Gallery
move_from none x g = g
move_from (some (began, moved)) x g = record g { drag = some (began, x -ℤ began) }

abbrev pub gal_move : ℤ → Gallery → Gallery
gal_move x g = move_from g.drag x g

unfoldable pub lift_from : (n : ℕ) → Option (ℤ × ℤ) → Gallery → Gallery
lift_from n none g = record g { drag = none }
lift_from n (some (began, moved)) g =
    if ltb 40 (pos_part moved + neg_part moved)
    then record (gal_go n (if ltb_ℤ moved (pos 0) then pos 1 else negsuc 0) g) { drag = none }
    else record g { drag = none }

abbrev pub gal_up : (n : ℕ) → Gallery → Gallery
gal_up n g = lift_from n g.drag g

-- Where `paintGallery` puts the slide `i` while `k` is in front: `n / 2` may be no whole number, so
-- the comparison is of twice the offset.
abbrev pub twice : ℤ → ℤ
twice a = a +ℤ a

unfoldable pub offset : (n k i : ℕ) → ℤ
offset n k i =
    let off = sub_ℕ i k in
    let near = if ltb_ℤ (pos n) (twice off) then off -ℤ pos n else off in
    if ltb_ℤ (twice near) (sub_ℕ 0 n) then near +ℤ pos n else near

-- `abs > 3`: the slide is not shown.
abbrev pub is_hidden : ℤ → Bool
is_hidden off = ltb 3 (pos_part off + neg_part off)

abbrev pub InRange : ℕ → ℤ → Type 0
InRange n (pos k) = k < n
InRange n (negsuc k) = ⊥

-- What `wrap` gives, in whole numbers that are not negative.
abbrev wrapped : ℕ → ℤ → ℕ
wrapped n (pos i) = i % n
wrapped n (negsuc i) = (n - suc i % n) % n
