-- ===== src/Camera/Page.antt =====
-- ui.js `bindMapNav`: what is left to the page, and which clicks go through.
use aapda_sync.Base.Floats.{Floats, num}
use aapda_sync.Base.{
  ℕ, Bool, true, false, not, ◌||◌, Option, none, some, [], ◌∷◌, ◌≡◌, refl, ap, ◌∙◌, arith,
  nat_eq_iff,
}
use aapda_sync.Camera.{Curves, Box, Flight, clamp_vb, frame, frame_of, box_between, eased}
use aapda_sync.Camera.Gestures.{
  Spot, Host, Hit, Drag, Nav, Pointer, DeltaMode, map_point, pointer_down, pointer_move, dragged,
  end_drag, click, touch_start,
}
use aapda_sync.Camera.Gestures.Zooming.{touch_move, wheel}

module _ (F : Floats) where
  -- What a reader does who scrolls past the map: the wheel with no key held, one finger, and a pointer
  -- that is not down.
  pub data Passes (curves : Curves F.Num) (reduced : Bool) (n : Nav F) : Nav F → Type 0 where
    scrolls :
        (now : F.Num) (host : Option (Host F)) (delta_y : F.Num) (mode : DeltaMode) (s : Spot F)
        → Passes curves reduced n (wheel F curves reduced now host false delta_y mode s n).0
    hovers : (id : ℕ) (s : Spot F) → Passes curves reduced n (pointer_move F id s n)
    touches :
        (host : Option (Host F)) (button id : ℕ) (s : Spot F)
        → Passes curves reduced n (pointer_down F host button Pointer.touch id s n)
    sets_finger :
        (host : Option (Host F)) (s : Spot F)
        → Passes curves reduced n (touch_start F host (s ∷ []) n)
    moves_finger :
        (now : F.Num) (host : Option (Host F)) (s : Spot F)
        → Passes curves reduced n (touch_move F curves reduced now host (s ∷ []) n).0
    lifts : Passes curves reduced n (end_drag F n)
    clicks : Passes curves reduced n (click F n).0

  pub data Reads (curves : Curves F.Num) (reduced : Bool) (a : Nav F) : Nav F → Type 0 where
    here : Reads curves reduced a a
    next :
        {b c : Nav F}
        → Reads curves reduced a b
        → Passes curves reduced b c
        → Reads curves reduced a c

  abbrev Untouched : Nav F → Nav F → Type 0
  Untouched n m = (m.cam ≡ n.cam) × (m.drag ≡ none)

  dragged-none :
      (n : Nav F) (d : Option (Drag F)) (id : ℕ) (s : Spot F) → d ≡ none → dragged F d id s n ≡ n
  unfolding dragged
  dragged-none n none id s e = refl
  dragged-none n (some d) id s e = cc

  Passes-Untouched :
      (curves : Curves F.Num) (reduced : Bool) {n m : Nav F}
      → Passes curves reduced n m
      → n.drag ≡ none
      → Untouched n m
  unfolding wheel pointer_down touch_start touch_move end_drag click
  Passes-Untouched curves reduced (Passes.scrolls now host delta_y mode s) e = (refl, e)
  Passes-Untouched curves reduced {n} (Passes.hovers id s) e =
      rw (dragged-none n n.drag id s e) (refl, e)
  Passes-Untouched curves reduced (Passes.touches host button id s) e = ground arith
  Passes-Untouched curves reduced (Passes.sets_finger host s) e = (refl, e)
  Passes-Untouched curves reduced (Passes.moves_finger now host s) e = (refl, e)
  Passes-Untouched curves reduced Passes.lifts e = (refl, refl)
  Passes-Untouched curves reduced Passes.clicks e = (refl, e)

  -- The page keeps its scrolling: where no drag is under way, the wheel with no key held, one finger on
  -- a screen and a pointer that is not pressed never move the camera, in whatever order they come.
  pub Reads-cam :
      (curves : Curves F.Num) (reduced : Bool) (a b : Nav F)
      → a.drag ≡ none
      → Reads curves reduced a b
      → (b.cam ≡ a.cam) × (b.drag ≡ none)
  Reads-cam curves reduced a b e Reads.here = (refl, e)
  Reads-cam curves reduced a b e (Reads.next {b = c} r s) =
      let (p, q) = Reads-cam curves reduced a c e r in
      let (p', q') = Passes-Untouched curves reduced s q in (p' ∙ p, q')

  press_at : (hit : Hit F) (id : ℕ) (s : Spot F) (n : Nav F) → Nav F
  press_at hit id s n = record n {
    drag = some (record { id = id; from = s; vb = n.cam.vb_to; scale = hit.scale; live = false });
  }

  pointer_down-press :
      (host : Option (Host F)) (hit : Hit F) (id : ℕ) (s : Spot F) (n : Nav F)
      → map_point F host s ≡ some hit
      → pointer_down F host 0 Pointer.mouse id s n ≡ press_at hit id s n
  unfolding pointer_down press_at
  pointer_down-press host hit id s n e = rw e

  -- A press of the mouse that moves once and is let go: the camera stands where it stood. The click
  -- that follows is kept from what is below exactly if the move was four pixels or more, or if a click
  -- was still to be swallowed from before; and the click after that goes through.
  pub pointer_down-click :
      (host : Option (Host F)) (hit : Hit F) (id : ℕ) (s t : Spot F) (n : Nav F)
      → map_point F host s ≡ some hit
      → ((end_drag F (pointer_move F id t (pointer_down F host 0 Pointer.mouse id s n))).cam
          ≡ n.cam)
        × ((click F
              (end_drag F (pointer_move F id t (pointer_down F host 0 Pointer.mouse id s n)))).1
            ≡ (not (F.lt (F.hypot (F.sub t.cx s.cx) (F.sub t.cy s.cy)) (num F 4))
                || n.swallow_click))
        × ((click F
              (click F (
                end_drag F (pointer_move F id t (pointer_down F host 0 Pointer.mouse id s n)))).0).1
            ≡ false)
  unfolding dragged end_drag click press_at
  pointer_down-click host hit id s t n e =
      rw (pointer_down-press host hit id s n e) (ground (arith, nat_eq_iff id id))

  pub drag_target : Drag F → Spot F → Box F
  drag_target d t = clamp_vb F (record d.vb {
    x = F.sub d.vb.x (F.div (F.sub t.cx d.from.cx) d.scale);
    y = F.sub d.vb.y (F.div (F.sub t.cy d.from.cy) d.scale);
  })

  dragged-live :
      (d : Drag F) (t : Spot F) (n : Nav F)
      → d.live ≡ true
      → dragged F (some d) d.id t n
        ≡ record n { cam = record n.cam { vb = drag_target d t; vb_to = drag_target d t } }
  unfolding dragged drag_target
  dragged-live d t n live = ground (arith, nat_eq_iff d.id d.id)

  -- A drag that is live moves the target of the camera, but where the camera is still in flight, the
  -- next frame shows a box between the one it started from and the target.
  pub pointer_move-frame :
      (curves : Curves F.Num) (now : F.Num) (d : Drag F) (f : Flight F) (t : Spot F) (n : Nav F)
      → n.drag ≡ some d
      → d.live ≡ true
      → n.cam.flight ≡ some f
      → ((pointer_move F d.id t n).cam.vb ≡ drag_target d t)
        × ((frame F curves now (pointer_move F d.id t n).cam).vb
            ≡ box_between F f.origin (drag_target d t) (eased F curves f now))
  unfolding frame
  pointer_move-frame curves now d f t n e live e' =
      let moved = ap (λ o. dragged F o d.id t n) e ∙ dragged-live d t n live in
      (
        ap (λ m. m.cam.vb) moved,
        ap (λ m. (frame F curves now m.cam).vb) moved
            ∙ ap
                (λ o.
                  (frame_of F curves now
                    (record n.cam { vb = drag_target d t; vb_to = drag_target d t }) o).vb)
                e',
      )
