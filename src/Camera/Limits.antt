-- ===== src/Camera/Limits.antt =====
-- ui.js `bindMapNav`: the camera stays in the range of the zoom, in whatever order its listeners run.
use aapda_sync.Base.Floats.{Floats, IsOrdered}
use aapda_sync.Base.{ℕ, Bool, false, Option, List, ◌≡◌}
use aapda_sync.Camera.{Curves, Box, min_w, max_w}
use aapda_sync.Camera.Gestures.{
  Spot, Host, Nav, Pointer, DeltaMode, Key, map_point, pointer_down, pointer_move, end_drag, click,
  touch_start, end_pinch,
}
use aapda_sync.Camera.Gestures.Zooming.{touch_move, wheel, double_click, key_down}
use aapda_sync.Camera.Framed.{
  Allowed, IsFramed, pointer_down-IsFramed, dragged-IsFramed, touch_start-IsFramed,
  touch_move-IsFramed, wheel-IsFramed, double_click_at-IsFramed, key_down-IsFramed,
}

module _ (F : Floats) (o : IsOrdered F) (ranged : F.lt (max_w F) (min_w F) ≡ false) where
  -- What happens on a map, in any order and at any time; the key 0 is pressed only where the box that it
  -- fits to is in the range of the zoom.
  pub data Step (curves : Curves F.Num) (reduced : Bool) (n : Nav F) : Nav F → Type 0 where
    presses :
        (host : Option (Host F)) (button : ℕ) (kind : Pointer) (id : ℕ) (s : Spot F)
        → Step curves reduced n (pointer_down F host button kind id s n)
    moves : (id : ℕ) (s : Spot F) → Step curves reduced n (pointer_move F id s n)
    lifts : Step curves reduced n (end_drag F n)
    clicks : Step curves reduced n (click F n).0
    touches :
        (host : Option (Host F)) (ts : List (Spot F))
        → Step curves reduced n (touch_start F host ts n)
    pinches :
        (now : F.Num) (host : Option (Host F)) (ts : List (Spot F))
        → Step curves reduced n (touch_move F curves reduced now host ts n).0
    releases : Step curves reduced n (end_pinch F n)
    turns :
        (now : F.Num) (host : Option (Host F)) (modified : Bool) (delta_y : F.Num)
        (mode : DeltaMode) (s : Spot F)
        → Step curves reduced n (wheel F curves reduced now host modified delta_y mode s n).0
    doubles :
        (now : F.Num) (host : Option (Host F)) (shift : Bool) (s : Spot F)
        → Step curves reduced n (double_click F curves reduced now host shift s n).0
    types :
        (now : F.Num) (fitted : Box F) (key : Key)
        → Allowed F o ranged key fitted
        → Step curves reduced n (key_down F curves reduced now fitted key n).0

  pub data Reach (curves : Curves F.Num) (reduced : Bool) (a : Nav F) : Nav F → Type 0 where
    here : Reach curves reduced a a
    next :
        {b c : Nav F}
        → Reach curves reduced a b
        → Step curves reduced b c
        → Reach curves reduced a c

  Step-IsFramed :
      (curves : Curves F.Num) (reduced : Bool) {n m : Nav F}
      → Step curves reduced n m
      → IsFramed F o ranged n
      → IsFramed F o ranged m
  unfolding end_drag click end_pinch
  Step-IsFramed curves reduced {n} (Step.presses host button kind id s) h =
      pointer_down-IsFramed F o ranged host button kind id s n h
  Step-IsFramed curves reduced {n} (Step.moves id s) h =
      dragged-IsFramed F o ranged n.drag id s n h.drag h
  Step-IsFramed curves reduced Step.lifts h = record {
    target = h.target;
    drag = tt;
    pinch = h.pinch;
  }
  Step-IsFramed curves reduced Step.clicks h = record {
    target = h.target;
    drag = h.drag;
    pinch = h.pinch;
  }
  Step-IsFramed curves reduced {n} (Step.touches host ts) h =
      touch_start-IsFramed F o ranged host ts n h
  Step-IsFramed curves reduced {n} (Step.pinches now host ts) h =
      touch_move-IsFramed F o ranged curves reduced now host ts n h
  Step-IsFramed curves reduced Step.releases h = record {
    target = h.target;
    drag = h.drag;
    pinch = tt;
  }
  Step-IsFramed curves reduced {n} (Step.turns now host modified delta_y mode s) h =
      wheel-IsFramed F o ranged curves reduced now host modified delta_y mode s n h
  Step-IsFramed curves reduced {n} (Step.doubles now host shift s) h =
      double_click_at-IsFramed F o ranged curves reduced now (map_point F host s) shift n h
  Step-IsFramed curves reduced {n} (Step.types now fitted key k) h =
      key_down-IsFramed F o ranged curves reduced now fitted key n k h

  -- Whatever is done with the wheel, the pointer, the fingers and the keys, in whatever order, except
  -- that the key 0 is not pressed where the box that it fits to is out of the range of the zoom, as those
  -- of the smallest states are: a camera whose target was in that range has a target in it, and so have
  -- the boxes that a drag and a pinch start from. `<` is that of doubles that are no NaN.
  pub Reach-IsFramed :
      (curves : Curves F.Num) (reduced : Bool) (a b : Nav F)
      → IsFramed F o ranged a
      → Reach curves reduced a b
      → IsFramed F o ranged b
  Reach-IsFramed curves reduced a b h Reach.here = h
  Reach-IsFramed curves reduced a b h (Reach.next {b = c} r s) =
      Step-IsFramed curves reduced s (Reach-IsFramed curves reduced a c h r)
