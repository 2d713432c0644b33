-- ===== src/TextSize/Steps.antt =====
-- ui.js: the text size that a reader chose comes back, and stays one of the steps.
use aapda_sync.Base.{
  ℕ, zero, suc, ◌*◌, ◌≤◌, ◌<◌, Option, some, ◌≡◌, ap, ◌∙◌, arith, length, get_elem?, or_else,
  if◌then◌else◌,
}
use aapda_sync.Base.Int.{ℤ, pos, negsuc, ◌+ℤ◌}
use aapda_sync.TextSize.{
  Font, apply_font, font_step, in_steps, is_nought, restore_font, restored, stored, font_steps,
}

in_steps-le : (i : ℤ) → in_steps i ≤ 4
in_steps-le (pos i) = omega arith
in_steps-le (negsuc i) = omega arith

stepped-le : (d : ℤ) (i : ℕ) → (if is_nought d then 2 else in_steps (pos i +ℤ d)) ≤ 4
stepped-le (pos zero) i = omega arith
stepped-le (pos (suc d)) i = in_steps-le (pos i +ℤ pos (suc d))
stepped-le (negsuc d) i = in_steps-le (pos i +ℤ negsuc d)

restored-stored : (i : ℕ) (item : Option (Option ℕ)) → i ≤ 4 → restored (stored i (some item)) ≡ i
restored-stored i item h = ground arith

-- Where the browser keeps what the page stores: the size that a reader has stepped to, in whatever
-- direction and from wherever, is one of the five, and it is the size after the page was loaded again.
pub font_step-restore_font :
    (dir : ℤ) (f : Font) (item : Option (Option ℕ))
    → f.storage ≡ some item
    → let stepped = (font_step dir f).0 in
      (stepped.idx < length font_steps)
      × ((restore_font stepped.storage).idx ≡ stepped.idx)
      × ((restore_font stepped.storage).px ≡ stepped.px)
unfolding font_step restore_font apply_font
font_step-restore_font dir f item e =
    let i = if is_nought dir then 2 else in_steps (pos f.idx +ℤ dir) in
    let le = stepped-le dir f.idx in
    let same : restored (stored i f.storage) ≡ i =
      ap (λ s. restored (stored i s)) e ∙ restored-stored i item le in
    (omega (arith, le), same, ap (λ n. or_else (get_elem? font_steps n) 0 * 16) same)
