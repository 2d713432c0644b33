-- ===== src/Camera/Framed.antt =====
-- ui.js `zoomAbout` and `clampVB`: the limits of the zoom, and that each listener of `bindMapNav` keeps
-- them.
use aapda_sync.Base.Floats.{Floats, IsOrdered}
use aapda_sync.Base.{ℕ, Bool, true, false, Option, none, some, List, [], ◌∷◌, ◌≡◌, arith}
use aapda_sync.Camera.{
  Curves, Box, Camera, Point, clamp_vb, zoomed, zoom_about, fly_to, min_w, max_w, not_below,
  not_above,
}
use aapda_sync.Camera.Gestures.{
  Spot, Host, Hit, Drag, Pinch, Nav, Pointer, DeltaMode, Key, map_point, pointer_down, dragged,
  touch_start, panned, minus_of, mid, span,
}
use aapda_sync.Camera.Gestures.Zooming.{
  touch_move, wheel, key_down, key_camera, pinched, pinch_move, pinch_zoom, wheel_at,
  double_click_at, pan_by,
}

module _ (F : Floats) (o : IsOrdered F) (ranged : F.lt (max_w F) (min_w F) ≡ false) where
  -- A box that is not narrower than the greatest zoom shows and not wider than the least.
  abbrev pub InZoom : Box F → Type 0
  InZoom b = (F.lt b.w (min_w F) ≡ false) × (F.lt (max_w F) b.w ≡ false)

  sizes-InZoom :
      (nw nh : F.Num)
      → (F.lt (not_above F (not_below F (nw, nh))).0 (min_w F) ≡ false)
        × (F.lt (max_w F) (not_above F (not_below F (nw, nh))).0 ≡ false)
  sizes-InZoom nw nh = ground (arith, ranged, o.lt_irrefl (min_w F), o.lt_irrefl (max_w F))

  zoomed-InZoom :
      (factor : F.Num) (about : Option (Point F)) (b : Box F) → InZoom (zoomed F factor about b)
  unfolding zoomed clamp_vb
  zoomed-InZoom factor about b = sizes-InZoom (F.div b.w factor) (F.div b.h factor)

  clamp_vb-InZoom : (b : Box F) → InZoom b → InZoom (clamp_vb F b)
  unfolding clamp_vb
  clamp_vb-InZoom b h = h

  fly_to-InZoom :
      (reduced : Bool) (now : F.Num) (b : Box F) (dur : ℕ) (cam : Camera F)
      → InZoom b
      → InZoom (fly_to F reduced now b dur cam).vb_to
  unfolding fly_to
  fly_to-InZoom reduced now b dur cam h = ground arith

  zoom_about-InZoom :
      (reduced : Bool) (now factor : F.Num) (about : Option (Point F)) (dur : ℕ) (cam : Camera F)
      → InZoom (zoom_about F reduced now factor about dur cam).vb_to
  unfolding zoom_about
  zoom_about-InZoom reduced now factor about dur cam =
      fly_to-InZoom reduced now _ dur cam (zoomed-InZoom factor about cam.vb_to)

  abbrev pub DragInZoom : Option (Drag F) → Type 0
  DragInZoom none = Unit
  DragInZoom (some d) = InZoom d.vb

  abbrev pub PinchInZoom : Option (Pinch F) → Type 0
  PinchInZoom none = Unit
  PinchInZoom (some p) = InZoom p.vb

  -- The target of the camera, and the boxes that a drag and a pinch start from.
  pub record IsFramed (n : Nav F) : Type 0 where
    pub target : InZoom n.cam.vb_to
    pub drag : DragInZoom n.drag
    pub pinch : PinchInZoom n.pinch

  pub pointer_down-IsFramed :
      (host : Option (Host F)) (button : ℕ) (kind : Pointer) (id : ℕ) (s : Spot F) (n : Nav F)
      → IsFramed n
      → IsFramed (pointer_down F host button kind id s n)
  unfolding pointer_down
  pointer_down-IsFramed host button kind id s n h = ground arith

  pub dragged-IsFramed :
      (d : Option (Drag F)) (id : ℕ) (s : Spot F) (n : Nav F)
      → DragInZoom d
      → IsFramed n
      → IsFramed (dragged F d id s n)
  unfolding dragged
  dragged-IsFramed none id s n k h = h
  dragged-IsFramed (some d) id s n k h = ground (
    arith,
    clamp_vb-InZoom
        (record d.vb {
          x = F.sub d.vb.x (F.div (F.sub s.cx d.from.cx) d.scale);
          y = F.sub d.vb.y (F.div (F.sub s.cy d.from.cy) d.scale);
        })
        k,
  )

  pub touch_start-IsFramed :
      (host : Option (Host F)) (touches : List (Spot F)) (n : Nav F)
      → IsFramed n
      → IsFramed (touch_start F host touches n)
  unfolding touch_start
  touch_start-IsFramed host [] n h = ground arith
  touch_start-IsFramed host (a ∷ []) n h = ground arith
  touch_start-IsFramed host (a ∷ b ∷ []) n h = ground arith
  touch_start-IsFramed host (a ∷ b ∷ c ∷ rest) n h = ground arith

  moved-IsFramed :
      (n : Nav F) (cam : Camera F)
      → InZoom cam.vb_to
      → IsFramed n
      → IsFramed (record n { cam = cam })
  moved-IsFramed n cam k h = record { target = k; drag = h.drag; pinch = h.pinch }

  -- Only the key 0 fits a box, and that box is to be in the range.
  abbrev pub Allowed : Key → Box F → Type 0
  Allowed Key.nought fitted = InZoom fitted
  Allowed Key.arrow_left fitted = Unit
  Allowed Key.arrow_right fitted = Unit
  Allowed Key.arrow_up fitted = Unit
  Allowed Key.arrow_down fitted = Unit
  Allowed Key.plus fitted = Unit
  Allowed Key.minus fitted = Unit
  Allowed Key.other fitted = Unit

  module _ (curves : Curves F.Num) (reduced : Bool) (now : F.Num) where
    pinch_zoom-IsFramed :
        (hit : Option (Hit F)) (p : Pinch F) (d : F.Num) (m : Spot F) (ratio : F.Num)
        (cam : Camera F) (n : Nav F)
        → InZoom cam.vb_to
        → IsFramed n
        → IsFramed (pinch_zoom F curves reduced now hit p d m ratio cam n)
    unfolding pinch_zoom
    pinch_zoom-IsFramed none p d m ratio cam n k h = record { target = k; drag = h.drag; pinch = k }
    pinch_zoom-IsFramed (some hit) p d m ratio cam n k h =
        let z = zoom_about-InZoom reduced now ratio (some hit.at) 0 cam in
        record { target = z; drag = h.drag; pinch = z }

    pinched-IsFramed :
        (host : Option (Host F)) (p : Pinch F) (a b : Spot F) (n : Nav F)
        → InZoom p.vb
        → IsFramed n
        → IsFramed (pinched F curves reduced now host p a b n)
    unfolding pinched
    pinched-IsFramed host p a b n k h =
        let m = mid F a b in
        let d = span F a b in
        let cam =
          panned F p.vb (F.div (F.sub m.cx p.m.cx) p.scale) (F.div (F.sub m.cy p.m.cy) p.scale)
            n.cam in
        let c : InZoom cam.vb_to = clamp_vb-InZoom _ k in
        ground (
          arith,
          pinch_zoom-IsFramed (map_point F host m) p d m (F.div d p.d) cam n c h,
          moved-IsFramed n cam c h,
        )

    pinch_move-IsFramed :
        (p : Option (Pinch F)) (host : Option (Host F)) (a b : Spot F) (n : Nav F)
        → PinchInZoom p
        → IsFramed n
        → IsFramed (pinch_move F curves reduced now p host a b n).0
    pinch_move-IsFramed none host a b n k h = h
    pinch_move-IsFramed (some p) host a b n k h = pinched-IsFramed host p a b n k h

    pub touch_move-IsFramed :
        (host : Option (Host F)) (touches : List (Spot F)) (n : Nav F)
        → IsFramed n
        → IsFramed (touch_move F curves reduced now host touches n).0
    unfolding touch_move
    touch_move-IsFramed host [] n h = h
    touch_move-IsFramed host (a ∷ []) n h = h
    touch_move-IsFramed host (a ∷ b ∷ []) n h = pinch_move-IsFramed n.pinch host a b n h.pinch h
    touch_move-IsFramed host (a ∷ b ∷ c ∷ rest) n h = h

    wheel_at-IsFramed :
        (hit : Option (Hit F)) (dy : F.Num) (n : Nav F)
        → IsFramed n
        → IsFramed (wheel_at F curves reduced now hit dy n)
    unfolding wheel_at
    wheel_at-IsFramed none dy n h = h
    wheel_at-IsFramed (some hit) dy n h =
        let factor = curves.exp (F.mul (minus_of F dy) (F.lit 85 100000)) in
        let cam = zoom_about F reduced now factor (some hit.at) 130 n.cam in
        let z = zoom_about-InZoom reduced now factor (some hit.at) 130 n.cam in
        ground (arith, moved-IsFramed n cam z h)

    pub wheel-IsFramed :
        (host : Option (Host F)) (modified : Bool) (delta_y : F.Num) (mode : DeltaMode) (s : Spot F)
        (n : Nav F)
        → IsFramed n
        → IsFramed (wheel F curves reduced now host modified delta_y mode s n).0
    unfolding wheel
    wheel-IsFramed host true delta_y mode s n h = wheel_at-IsFramed (map_point F host s) _ n h
    wheel-IsFramed host false delta_y mode s n h = h

    pub double_click_at-IsFramed :
        (hit : Option (Hit F)) (shift : Bool) (n : Nav F)
        → IsFramed n
        → IsFramed (double_click_at F curves reduced now hit shift n).0
    unfolding double_click_at
    double_click_at-IsFramed none shift n h = h
    double_click_at-IsFramed (some hit) shift n h =
        moved-IsFramed n _ (zoom_about-InZoom reduced now _ (some hit.at) 280 n.cam) h

    pan_by-InZoom :
        (dx dy : F.Num) (cam : Camera F)
        → InZoom cam.vb_to
        → InZoom (pan_by F curves reduced now dx dy cam).vb_to
    pan_by-InZoom dx dy cam h = fly_to-InZoom reduced now _ 180 cam (clamp_vb-InZoom _ h)

    pub key_down-IsFramed :
        (fitted : Box F) (key : Key) (n : Nav F)
        → Allowed key fitted
        → IsFramed n
        → IsFramed (key_down F curves reduced now fitted key n).0
    unfolding key_down key_camera
    key_down-IsFramed fitted Key.arrow_left n k h =
        moved-IsFramed n _ (pan_by-InZoom _ _ n.cam h.target) h
    key_down-IsFramed fitted Key.arrow_right n k h =
        moved-IsFramed n _ (pan_by-InZoom _ _ n.cam h.target) h
    key_down-IsFramed fitted Key.arrow_up n k h =
        moved-IsFramed n _ (pan_by-InZoom _ _ n.cam h.target) h
    key_down-IsFramed fitted Key.arrow_down n k h =
        moved-IsFramed n _ (pan_by-InZoom _ _ n.cam h.target) h
    key_down-IsFramed fitted Key.plus n k h =
        moved-IsFramed n _ (zoom_about-InZoom reduced now _ none 260 n.cam) h
    key_down-IsFramed fitted Key.minus n k h =
        moved-IsFramed n _ (zoom_about-InZoom reduced now _ none 260 n.cam) h
    key_down-IsFramed fitted Key.nought n k h =
        moved-IsFramed n _ (fly_to-InZoom reduced now fitted 560 n.cam k) h
    key_down-IsFramed fitted Key.other n k h = h
