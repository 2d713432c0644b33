-- ===== src/Camera.antt =====
-- The camera of the map: frontend/standalone/src/map.js `aspectFit`, `flyTo` with its frames and
-- `stateVB`; ui.js `currentZoom`, `zoomAbout` and `clampVB`; geo.js `countryVB`. Boxes are in
-- `Floats`; what is painted is left out.
pub mod Gestures
pub mod Framed
pub mod Limits
pub mod Page
pub mod Scope
pub mod Levels
mod Tests
use aapda_sync.Base.Floats.{Floats, num, greatest, is_nought}
use aapda_sync.Base.{ℕ, Bool, true, false, ◌||◌, Option, none, some, if◌then◌else◌, nat_eq, or_else}

-- `Math.exp(x)` and `Math.pow(x, 3)`.
pub record Curves (Num : Type 0) : Type 0 where
  pub exp : Num → Num
  pub cube : Num → Num

module _ (F : Floats) where
  -- `[x, y, w, h]`
  pub record Box : Type 0 where
    pub x : F.Num
    pub y : F.Num
    pub w : F.Num
    pub h : F.Num

  abbrev pub in_vb : Box
  in_vb = record { x = num F 0; y = num F 0; w = num F 612; h = num F 696 }

  -- A move of the camera that is under way: `from`, `t0` and `dur` of `flyTo`.
  pub record Flight : Type 0 where
    pub origin : Box
    pub t0 : F.Num
    pub dur : ℕ

  -- `VB`, `VBto`, and the frame that is asked for.
  pub record Camera : Type 0 where
    pub vb : Box
    pub vb_to : Box
    pub flight : Option Flight

  -- `flyTo(vb, dur)`, at the time `now`.
  unfoldable pub fly_to : (reduced_motion : Bool) (now : F.Num) → Box → (dur : ℕ) → Camera → Camera
  fly_to reduced_motion now box dur cam =
      if reduced_motion || nat_eq dur 0
      then record { vb = box; vb_to = box; flight = none }
      else record {
        vb = cam.vb;
        vb_to = box;
        flight = some (record { origin = cam.vb; t0 = now; dur = dur });
      }

  abbrev pub between : F.Num → F.Num → F.Num → F.Num
  between v to e = F.add v (F.mul (F.sub to v) e)

  abbrev pub box_between : Box → Box → F.Num → Box
  box_between a b e = record {
    x = between a.x b.x e;
    y = between a.y b.y e;
    w = between a.w b.w e;
    h = between a.h b.h e;
  }

  -- How far a flight is at the time `now`, and its ease.
  abbrev pub progress : Flight → F.Num → F.Num
  progress f now = F.least (num F 1) (F.div (F.sub now f.t0) (num F f.dur))

  abbrev pub eased : Curves F.Num → Flight → F.Num → F.Num
  eased curves f now = F.sub (num F 1) (curves.cube (F.sub (num F 1) (progress f now)))

  abbrev pub frame_of : Curves F.Num → (now : F.Num) → Camera → Option Flight → Camera
  frame_of curves now cam none = cam
  frame_of curves now cam (some f) = record {
    vb = box_between f.origin cam.vb_to (eased curves f now);
    vb_to = cam.vb_to;
    flight = if F.lt (progress f now) (num F 1) then some f else none;
  }

  -- `step(now)` of `flyTo`, where a frame was asked for.
  unfoldable pub frame : Curves F.Num → (now : F.Num) → Camera → Camera
  frame curves now cam = frame_of curves now cam cam.flight

  -- The box as a host of the size `width`, `height` shows it.
  unfoldable pub aspect_fit : Box → (width height : F.Num) → Box
  aspect_fit vb width height =
      let want = F.div width height in
      let have = F.div vb.w vb.h in
      let nw = F.mul vb.h want in
      let nh = F.div vb.w want in
      if is_nought F width || is_nought F height
      then vb
      else if F.lt have want
      then record vb { x = F.sub vb.x (F.div (F.sub nw vb.w) (num F 2)); w = nw }
      else record vb { y = F.sub vb.y (F.div (F.sub nh vb.h) (num F 2)); h = nh }

  -- `clampVB(vb)`
  unfoldable pub clamp_vb : Box → Box
  clamp_vb vb =
      let pad = greatest F vb.w vb.h in
      let start = in_vb in
      record vb {
        x =
            greatest F (F.sub start.x pad)
              (F.least (F.sub (F.add (F.add start.x start.w) pad) vb.w) vb.x);
        y =
            greatest F (F.sub start.y pad)
              (F.least (F.sub (F.add (F.add start.y start.h) pad) vb.h) vb.y);
      }

  -- `IN_VB[2] / ZOOM_MAX` and `IN_VB[2] / ZOOM_MIN`
  abbrev pub min_w : F.Num
  min_w = F.div (num F 612) (num F 14)

  abbrev pub max_w : F.Num
  max_w = F.div (num F 612) (F.lit 25 100)

  abbrev pub current_zoom : Camera → F.Num
  current_zoom cam = F.div (num F 612) cam.vb_to.w

  -- The size of a box that is scaled: first not below the least width, then not above the greatest.
  abbrev pub not_below : F.Num × F.Num → F.Num × F.Num
  not_below (nw, nh) = if F.lt nw min_w then (min_w, F.mul nh (F.div min_w nw)) else (nw, nh)

  abbrev pub not_above : F.Num × F.Num → F.Num × F.Num
  not_above (nw, nh) = if F.lt max_w nw then (max_w, F.mul nh (F.div max_w nw)) else (nw, nh)

  -- A point in the coordinates of the view box.
  pub record Point : Type 0 where
    pub px : F.Num
    pub py : F.Num

  abbrev pub middle : Box → Point
  middle b = record { px = F.add b.x (F.div b.w (num F 2)); py = F.add b.y (F.div b.h (num F 2)) }

  -- The box that `zoomAbout` moves the camera to.
  unfoldable pub zoomed : (factor : F.Num) → Option Point → Box → Box
  zoomed factor about b =
      let c = or_else about (middle b) in
      let size = not_above (not_below (F.div b.w factor, F.div b.h factor)) in
      clamp_vb (record {
        x = F.sub c.px (F.mul (F.sub c.px b.x) (F.div size.0 b.w));
        y = F.sub c.py (F.mul (F.sub c.py b.y) (F.div size.1 b.h));
        w = size.0;
        h = size.1;
      })

  -- `zoomAbout(factor, ax, ay, dur)`
  unfoldable pub zoom_about :
      (reduced_motion : Bool) (now factor : F.Num) → Option Point → (dur : ℕ) → Camera → Camera
  zoom_about reduced_motion now factor about dur cam =
      fly_to reduced_motion now (zoomed factor about cam.vb_to) dur cam

  -- A row `[x, y, w, h]` of BBOX.
  unfoldable pub state_vb : Option Box → Box
  state_vb none = in_vb
  state_vb (some b) =
      let pad = F.mul (greatest F b.w b.h) (F.lit 16 100) in
      let w = F.add b.w (F.mul pad (num F 2)) in
      let h = F.add b.h (F.mul pad (num F 2)) in
      let side = greatest F w h in
      record {
        x = F.sub (F.sub b.x pad) (F.div (F.sub side w) (num F 2));
        y = F.sub (F.sub b.y pad) (F.div (F.sub side h) (num F 2));
        w = side;
        h = side;
      }

  -- A country's `bbox`: `[x0, y0, x1, y1]`.
  pub record Bounds : Type 0 where
    pub x0 : F.Num
    pub y0 : F.Num
    pub x1 : F.Num
    pub y1 : F.Num

  unfoldable pub country_vb : Bounds → Box
  country_vb c =
      let w = greatest F (F.sub c.x1 c.x0) (num F 4) in
      let h = greatest F (F.sub c.y1 c.y0) (num F 4) in
      let side = F.mul (greatest F w h) (F.lit 135 100) in
      record {
        x = F.sub (F.div (F.add c.x0 c.x1) (num F 2)) (F.div side (num F 2));
        y = F.sub (F.div (F.sub (num F 0) (F.add c.y0 c.y1)) (num F 2)) (F.div side (num F 2));
        w = side;
        h = side;
      }
