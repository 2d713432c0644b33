-- ===== src/Camera/Gestures/Zooming.antt =====
-- ui.js, the listeners of `bindMapNav` that zoom or pan from where the camera is: two fingers, the
-- wheel, the double click and the keys.
use aapda_sync.Base.Floats.{Floats, num, greatest, is_nought}
use aapda_sync.Base.{Bool, true, false, Option, none, some, List, [], ◌∷◌, if◌then◌else◌}
use aapda_sync.Camera.{Curves, Box, Camera, clamp_vb, zoom_about, fly_to}
use aapda_sync.Camera.Gestures.{
  DeltaMode, unit_of, Key, Spot, Host, Hit, Pinch, Nav, map_point, minus_of, panned, mid, span,
}

module _ (F : Floats) (curves : Curves F.Num) (reduced_motion : Bool) (now : F.Num) where
  -- The end of `touchmove`: the zoom about the middle of the fingers, at the point that it hits.
  unfoldable pub pinch_zoom :
      Option (Hit F) → Pinch F → (d : F.Num) (m : Spot F) (ratio : F.Num) → Camera F → Nav F → Nav F
  pinch_zoom none p d m ratio cam n = record n {
    cam = cam;
    pinch = some (record { d = d; m = m; vb = cam.vb_to; scale = p.scale });
  }
  pinch_zoom (some hit) p d m ratio cam n =
      let zoomed = zoom_about F reduced_motion now ratio (some hit.at) 0 cam in
      record n {
        cam = zoomed;
        pinch = some (record {
          d = d;
          m = m;
          vb = zoomed.vb_to;
          scale = if is_nought F hit.scale then p.scale else hit.scale;
        });
      }

  -- `touchmove` of two fingers, in the pinch `p`. The host is read again behind the pan.
  unfoldable pub pinched : Option (Host F) → Pinch F → (a b : Spot F) → Nav F → Nav F
  pinched host p a b n =
      let m = mid F a b in
      let d = span F a b in
      let ratio = F.div d p.d in
      let cam =
        panned F p.vb (F.div (F.sub m.cx p.m.cx) p.scale) (F.div (F.sub m.cy p.m.cy) p.scale)
          n.cam in
      let off = F.sub ratio (num F 1) in
      if is_nought F p.d
      then n
      else if F.lt (F.lit 2 100) (greatest F off (minus_of F off))
      then pinch_zoom (map_point F host m) p d m ratio cam n
      else record n { cam = cam }

  abbrev pub pinch_move : Option (Pinch F) → Option (Host F) → (a b : Spot F) → Nav F → Nav F × Bool
  pinch_move none host a b n = (n, false)
  pinch_move (some p) host a b n = (pinched host p a b n, true)

  -- `touchmove`
  unfoldable pub touch_move : Option (Host F) → (touches : List (Spot F)) → Nav F → Nav F × Bool
  touch_move host (a ∷ b ∷ []) n = pinch_move n.pinch host a b n
  touch_move host [] n = (n, false)
  touch_move host (a ∷ []) n = (n, false)
  touch_move host (a ∷ b ∷ c ∷ rest) n = (n, false)

  -- `dy`, the pixels that the wheel turned, in the limits of one event.
  abbrev pub wheel_pixels : (delta_y : F.Num) → DeltaMode → F.Num
  wheel_pixels delta_y mode =
      greatest F (minus_of F (num F 55)) (F.least (num F 55) (F.mul delta_y (num F (unit_of mode))))

  unfoldable pub wheel_at : Option (Hit F) → (dy : F.Num) → Nav F → Nav F
  wheel_at none dy n = n
  wheel_at (some hit) dy n = if is_nought F dy then n else record n {
    cam =
        zoom_about F reduced_motion now (curves.exp (F.mul (minus_of F dy) (F.lit 85 100000)))
          (some hit.at) 130 n.cam;
  }

  -- `wheel`: with `modified`, Ctrl or Meta is held.
  unfoldable pub wheel :
      Option (Host F)
      → (modified : Bool) → (delta_y : F.Num) → DeltaMode
      → Spot F
      → Nav F
      → Nav F × Bool
  wheel host modified delta_y mode s n =
      if modified
      then (wheel_at (map_point F host s) (wheel_pixels delta_y mode) n, true)
      else (n, false)

  -- `dblclick`
  unfoldable pub double_click_at : Option (Hit F) → (shift : Bool) → Nav F → Nav F × Bool
  double_click_at none shift n = (n, false)
  double_click_at (some hit) shift n = (
    record n {
      cam =
          zoom_about F reduced_motion now
            (if shift then F.div (num F 1) (F.lit 16 10) else F.lit 16 10) (some hit.at) 280 n.cam;
    },
    true,
  )

  abbrev pub double_click : Option (Host F) → (shift : Bool) → Spot F → Nav F → Nav F × Bool
  double_click host shift s n = double_click_at (map_point F host s) shift n

  abbrev pub zoom_in : Camera F → Camera F
  zoom_in = zoom_about F reduced_motion now (F.lit 135 100) none 260

  abbrev pub zoom_out : Camera F → Camera F
  zoom_out = zoom_about F reduced_motion now (F.div (num F 1) (F.lit 135 100)) none 260

  abbrev pub pan_by : (dx dy : F.Num) → Camera F → Camera F
  pan_by dx dy cam =
      let b = cam.vb_to in
      fly_to F reduced_motion now (clamp_vb F (record b { x = F.add b.x dx; y = F.add b.y dy })) 180
        cam

  -- The camera behind a key; `fitted` is the box that `zoomReset` moves to.
  unfoldable pub key_camera : (fitted : Box F) → Key → Camera F → Option (Camera F)
  key_camera fitted key cam =
      let b = cam.vb_to in
      let step_x = F.mul b.w (F.lit 1 10) in
      let step_y = F.mul b.h (F.lit 1 10) in
      elim key [
        | Key.arrow_left ↦ some (pan_by (minus_of F step_x) (num F 0) cam)
        | Key.arrow_right ↦ some (pan_by step_x (num F 0) cam)
        | Key.arrow_up ↦ some (pan_by (num F 0) (minus_of F step_y) cam)
        | Key.arrow_down ↦ some (pan_by (num F 0) step_y cam)
        | Key.plus ↦ some (zoom_in cam)
        | Key.minus ↦ some (zoom_out cam)
        | Key.nought ↦ some (fly_to F reduced_motion now fitted 560 cam)
        | Key.other ↦ none
      ]

  -- `keydown`
  unfoldable pub key_down : (fitted : Box F) → Key → Nav F → Nav F × Bool
  key_down fitted key n = elim (key_camera fitted key n.cam) [
    | none ↦ (n, false)
    | some cam ↦ (record n { cam = cam }, true)
  ]
