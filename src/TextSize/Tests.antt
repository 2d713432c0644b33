-- ===== src/TextSize/Tests.antt =====
-- A reader makes the text larger.
use aapda_sync.Base.{◌<◌, none, some, ◌≡◌, refl, length}
use aapda_sync.Base.Int.{pos}
use aapda_sync.TextSize.{Font, font_step, restore_font, font_steps}
use aapda_sync.TextSize.Steps.{font_step-restore_font}

abbrev usual : Font
usual = record { idx = 2; px = 1600; storage = some none }

font_step-restore_font_example :
    let stepped = (font_step (pos 1) usual).0 in
    (stepped.idx < length font_steps)
    × ((restore_font stepped.storage).idx ≡ stepped.idx)
    × ((restore_font stepped.storage).px ≡ stepped.px)
font_step-restore_font_example = font_step-restore_font (pos 1) usual none refl
