-- ===== src/Camera/Gestures.antt =====
-- ui.js `mapPoint` and the listeners of `bindMapNav`: the pointer, and where two fingers start. A handler says beside the new state whether it called preventDefault.
pub mod Zooming
use aapda_sync.Base.Floats.{Floats, num, greatest, is_nought}
use aapda_sync.Base.{
  ℕ, Bool, true, false, not, ◌||◌, Option, none, some, List, [], ◌∷◌, if◌then◌else◌, nat_eq,
}
use aapda_sync.Camera.{Curves, Box, Camera, Point, clamp_vb, zoom_about, fly_to}

pub data Pointer : Type 0 where
  mouse pen touch : Pointer

abbrev pub is_touch : Pointer → Bool
is_touch Pointer.touch = true
is_touch _ = false

-- `ev.deltaMode`
pub data DeltaMode : Type 0 where
  pixels lines pages : DeltaMode

abbrev pub unit_of : DeltaMode → ℕ
unit_of DeltaMode.pixels = 1
unit_of DeltaMode.lines = 16
unit_of DeltaMode.pages = 400

pub data Key : Type 0 where
  arrow_left arrow_right arrow_up arrow_down plus minus nought other : Key

module _ (F : Floats) where
  -- A point of the page, as `clientX` and `clientY` give it.
  pub record Spot : Type 0 where
    pub cx : F.Num
    pub cy : F.Num

  -- The element that shows the map: its view box and its place on the page.
  pub record Host : Type 0 where
    pub vb : Box F
    pub left : F.Num
    pub top : F.Num
    pub width : F.Num
    pub height : F.Num

  -- What `mapPoint` gives: the point in the view box, and the scale.
  pub record Hit : Type 0 where
    pub at : Point F
    pub scale : F.Num

  -- `mapPoint(host, x, y)`, `none` where there is no drawing with a view box of four numbers.
  unfoldable pub map_point : Option Host → Spot → Option Hit
  map_point none s = none
  map_point (some h) s =
      if is_nought F h.width || is_nought F h.height
      then none
      else some (record {
        at = record {
          px = F.add h.vb.x (F.mul (F.div (F.sub s.cx h.left) h.width) h.vb.w);
          py = F.add h.vb.y (F.mul (F.div (F.sub s.cy h.top) h.height) h.vb.h);
        };
        scale = F.div h.width h.vb.w;
      })

  -- `drag`
  pub record Drag : Type 0 where
    pub id : ℕ
    pub from : Spot
    pub vb : Box F
    pub scale : F.Num
    pub live : Bool

  -- `pinch`
  pub record Pinch : Type 0 where
    pub d : F.Num
    pub m : Spot
    pub vb : Box F
    pub scale : F.Num

  -- The variables of `bindMapNav`, with the camera.
  pub record Nav : Type 0 where
    pub cam : Camera F
    pub drag : Option Drag
    pub swallow_click : Bool
    pub pinch : Option Pinch

  abbrev pub minus_of : F.Num → F.Num
  minus_of a = F.sub (num F 0) a

  -- `VB = VBto = clampVB(...)`, for a box that is moved by `dx`, `dy`: a frame that was asked for stays.
  abbrev pub panned : Box F → (dx dy : F.Num) → Camera F → Camera F
  panned b dx dy cam =
      let to = clamp_vb F (record b { x = F.sub b.x dx; y = F.sub b.y dy }) in
      record cam { vb = to; vb_to = to }

  -- `pointerdown`
  unfoldable pub pointer_down : Option Host → (button : ℕ) → Pointer → (id : ℕ) → Spot → Nav → Nav
  pointer_down host button kind id s n =
      if not (nat_eq button 0) || is_touch kind then n else elim (map_point host s) [
        | none ↦ n
        | some hit ↦ record n {
          drag =
              some
                (record { id = id; from = s; vb = n.cam.vb_to; scale = hit.scale; live = false });
        }
      ]

  -- `pointermove`, of the drag `drag`.
  unfoldable pub dragged : Option Drag → (id : ℕ) → Spot → Nav → Nav
  dragged none id s n = n
  dragged (some d) id s n =
      if not (nat_eq id d.id)
      then n
      else if not d.live
      then if F.lt (F.hypot (F.sub s.cx d.from.cx) (F.sub s.cy d.from.cy)) (num F 4)
        then n
        else record n { drag = some (record d { live = true; from = s }) }
      else record n {
        cam =
            panned d.vb (F.div (F.sub s.cx d.from.cx) d.scale)
              (F.div (F.sub s.cy d.from.cy) d.scale) n.cam;
      }

  abbrev pub pointer_move : (id : ℕ) → Spot → Nav → Nav
  pointer_move id s n = dragged n.drag id s n

  abbrev pub is_live : Option Drag → Bool
  is_live none = false
  is_live (some d) = d.live

  -- `endDrag`, for `pointerup` and for `pointercancel`.
  unfoldable pub end_drag : Nav → Nav
  end_drag n = record n { drag = none; swallow_click = is_live n.drag || n.swallow_click }

  -- The listener of `click`, and whether it keeps the click from what is below.
  unfoldable pub click : Nav → Nav × Bool
  click n = (record n { swallow_click = false }, n.swallow_click)

  abbrev pub span : Spot → Spot → F.Num
  span a b = F.hypot (F.sub a.cx b.cx) (F.sub a.cy b.cy)

  abbrev pub mid : Spot → Spot → Spot
  mid a b = record {
    cx = F.div (F.add a.cx b.cx) (num F 2);
    cy = F.div (F.add a.cy b.cy) (num F 2);
  }

  -- `touchstart`
  unfoldable pub touch_start : Option Host → (touches : List Spot) → Nav → Nav
  touch_start host (a ∷ b ∷ []) n = elim (map_point host (mid a b)) [
    | none ↦ n
    | some hit ↦ record n {
      pinch = some (record { d = span a b; m = mid a b; vb = n.cam.vb_to; scale = hit.scale });
    }
  ]
  touch_start host [] n = record n { pinch = none }
  touch_start host (a ∷ []) n = record n { pinch = none }
  touch_start host (a ∷ b ∷ c ∷ rest) n = record n { pinch = none }

  unfoldable pub end_pinch : Nav → Nav
  end_pinch n = record n { pinch = none }
