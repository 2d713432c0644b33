-- ===== src/Camera/Tests.antt =====
-- A map of 100 by 100 pixels that shows India, in hundredths.
use aapda_sync.Base.{
  ℕ, ◌+◌, true, false, not, ◌||◌, Option, none, some, String, List, [], ◌∷◌, ◌≡◌, refl, str_eq,
  if◌then◌else◌,
}
use aapda_sync.Base.Hundredths.{hundredths, hundredths-IsOrdered}
use aapda_sync.Camera.{Curves, Box, Camera, Flight, in_vb, fly_to}
use aapda_sync.Camera.Gestures.{
  Spot, Host, Hit, Drag, Nav, DeltaMode, Pointer, map_point, pointer_down, pointer_move, end_drag,
  click,
}
use aapda_sync.Camera.Gestures.Zooming.{wheel}
use aapda_sync.Camera.Limits
use aapda_sync.Camera.Framed.{IsFramed}
use aapda_sync.Camera.Limits.{Reach-IsFramed}
use aapda_sync.Camera.Page.{pointer_down-click}
use aapda_sync.Camera.Scope.{Scope, Level, go_world, pick_state, zoom_reset}
use aapda_sync.Camera.Levels
use aapda_sync.Camera.Levels.{Fits, Reach-zoom_reset}

abbrev curves : Curves ℕ
curves = record { exp = λ a. 100 + a; cube = λ a. a }

abbrev host : Host hundredths
host = record { vb = in_vb hundredths; left = 0; top = 0; width = 10000; height = 10000 }

abbrev camera : Camera hundredths
camera = record { vb = in_vb hundredths; vb_to = in_vb hundredths; flight = none }

abbrev nav : Nav hundredths
nav = record { cam = camera; drag = none; swallow_click = false; pinch = none }

abbrev here : Spot hundredths
here = record { cx = 5000; cy = 5000 }

abbrev there : Spot hundredths
there = record { cx = 7000; cy = 5000 }

abbrev turned : Nav hundredths
turned = (wheel hundredths curves true 0 (some host) true 300 DeltaMode.lines here nav).0

nav-IsFramed : IsFramed hundredths hundredths-IsOrdered refl nav
nav-IsFramed = record { target = (refl, refl); drag = tt; pinch = tt }

Reach-IsFramed_example : IsFramed hundredths hundredths-IsOrdered refl turned
Reach-IsFramed_example =
    Reach-IsFramed hundredths hundredths-IsOrdered refl curves true nav turned nav-IsFramed (
      Limits.Reach.next Limits.Reach.here
        (Limits.Step.turns 0 (some host) true 300 DeltaMode.lines here))

abbrev passed : Nav hundredths
passed = (wheel hundredths curves true 0 (some host) false 300 DeltaMode.lines here nav).0

abbrev hit : Hit hundredths
hit = record { at = record { px = 30600; py = 34800 }; scale = 16 }

hits : map_point hundredths (some host) here ≡ some hit
unfolding map_point
hits = refl

abbrev let_go : Nav hundredths
let_go = end_drag hundredths (
    pointer_move hundredths 7 there
      (pointer_down hundredths (some host) 0 Pointer.mouse 7 here nav))

pointer_down-click_example :
    (let_go.cam ≡ nav.cam)
    × ((click hundredths let_go).1 ≡ (not (hundredths.lt 2000 400) || nav.swallow_click))
    × ((click hundredths (click hundredths let_go).0).1 ≡ false)
pointer_down-click_example = pointer_down-click hundredths (some host) hit 7 here there nav hits

abbrev drag : Drag hundredths
drag = record { id = 7; from = here; vb = in_vb hundredths; scale = 16; live = true }

abbrev flight : Flight hundredths
flight = record {
  origin = record { x = 10000; y = 10000; w = 20000; h = 20000 };
  t0 = 0;
  dur = 280;
}

abbrev flying : Nav hundredths
flying = record nav { drag = some drag; cam = record camera { flight = some flight } }

abbrev states : List String
states = "ut" ∷ []

abbrev boxes : String → Option (Box hundredths)
boxes id =
    if str_eq id "ut" then some (record { x = 20000; y = 10000; w = 5000; h = 5000 }) else none

abbrev country : Scope hundredths
country = record {
  focus = some "ut";
  map_focus = none;
  level = Level.country;
  geo_country = "356";
  hover_country = none;
  cz_framed = false;
  cam = camera;
}

abbrev opened : Scope hundredths
opened = pick_state hundredths states boxes true 0 "ut" country

Reach-zoom_reset_example :
    Fits hundredths states boxes true country.map_focus opened.level opened.map_focus opened.focus
      (zoom_reset hundredths states boxes true 0 opened).cam.vb_to
Reach-zoom_reset_example =
    Reach-zoom_reset hundredths states boxes true 0 country opened refl
      (Levels.Reach.next Levels.Reach.here (Levels.Moves.picks_state 0 "ut"))

abbrev outside : Scope hundredths
outside =
    zoom_reset hundredths states boxes true 0 (go_world hundredths states boxes true 0 country)

-- At the level of the world the reset frames India in the country's coordinates.
reset_in_world : (outside.level ≡ Level.world) × (outside.cam.vb_to ≡ in_vb hundredths)
unfolding go_world zoom_reset fly_to
reset_in_world = (refl, refl)
