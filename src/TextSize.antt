-- ===== src/TextSize.antt =====
-- The text size of the page: frontend/standalone/src/ui.js `applyFont`, `fontStep` and `restoreFont`.
pub mod Steps
mod Tests
use aapda_sync.Base.{
  ℕ, zero, suc, ◌+◌, ◌-◌, ◌*◌, min, max, Bool, true, false, not, ◌&&◌, Option, none, some, String,
  List, [], ◌∷◌, length, get_elem?, or_else, if◌then◌else◌, ltb, nat_eq,
}
use aapda_sync.Base.Int.{ℤ, pos, negsuc, ◌+ℤ◌}

-- FONT_STEPS in hundredths.
abbrev pub font_steps : List ℕ
font_steps = 88 ∷ 94 ∷ 100 ∷ 109 ∷ 120 ∷ []

-- `localStorage`, `none` where the browser does not let the page use it; its item `aapda.font`, if there
-- is one, is a text, which is here the number that `+v` gives, `none` where that is no whole number.
abbrev pub Storage : Type 0
Storage = Option (Option (Option ℕ))

-- `fontIdx`, the size of the page's text in hundredths of a pixel, and the storage.
pub record Font : Type 0 where
  pub idx : ℕ
  pub px : ℕ
  pub storage : Storage

abbrev pub stored : ℕ → Storage → Storage
stored idx none = none
stored idx (some item) = some (some (some idx))

-- `applyFont()`
unfoldable pub apply_font : Font → Font
apply_font f = record f {
  px = or_else (get_elem? font_steps f.idx) 0 * 16;
  storage = stored f.idx f.storage;
}

-- `Math.max(0, Math.min(FONT_STEPS.length - 1, i))`
abbrev pub in_steps : ℤ → ℕ
in_steps (pos i) = min (length font_steps - 1) i
in_steps (negsuc i) = 0

abbrev pub is_nought : ℤ → Bool
is_nought (pos zero) = true
is_nought (pos (suc i)) = false
is_nought (negsuc i) = false

-- What is said at the end of the steps.
pub data Notice : Type 0 where
  quiet largest smallest : Notice

abbrev pub notice_of : ℤ → (was now : ℕ) → Notice
notice_of (pos zero) was now = Notice.quiet
notice_of (pos (suc d)) was now = if nat_eq was now then Notice.largest else Notice.quiet
notice_of (negsuc d) was now = if nat_eq was now then Notice.smallest else Notice.quiet

-- `fontStep(dir)`
unfoldable pub font_step : ℤ → Font → Font × Notice
font_step dir f =
    let idx = if is_nought dir then 2 else in_steps (pos f.idx +ℤ dir) in
    (apply_font (record f { idx = idx }), notice_of dir f.idx idx)

abbrev pub known_idx : Option (Option ℕ) → Option ℕ
known_idx none = none
known_idx (some none) = none
known_idx (some (some i)) = if ltb i (length font_steps) then some i else none

abbrev pub restored : Storage → ℕ
restored none = 2
restored (some item) = or_else (known_idx item) 2

-- `restoreFont()`, when the page is loaded.
unfoldable pub restore_font : Storage → Font
restore_font storage = apply_font (record { idx = restored storage; px = 1600; storage = storage })
