-- ===== src/Slideshow.antt =====
-- The slideshow of the public page: frontend/standalone/src/citizen.js `paintHero` to `heroKey`, and
-- the lines of `render` (views.js) that start and stop it. Positions of a pointer are whole pixels.
pub mod Alone
mod Tests
use aapda_sync.Base.Int.{ℤ, pos, negsuc, sub_ℕ, ◌+ℤ◌, ◌-ℤ◌, ltb_ℤ, pos_part, neg_part}
use aapda_sync.Base.{
  ℕ, zero, suc, ◌+◌, ◌*◌, ◌%◌, Bool, true, false, not, ◌&&◌, ◌||◌, Option, none, some, List, [],
  ◌∷◌, keep, any, if◌then◌else◌, ltb, nat_eq,
}

-- `heroTouch`.
pub record Touch : Type 0 where
  pub x : ℤ
  pub y : ℤ

-- The variables of the slideshow, the intervals that the browser runs, and the next id that
-- `setInterval` gives. An id is never 0.
pub record Hero : Type 0 where
  pub idx : ℤ
  pub timer : Option ℕ
  pub stopped : Bool
  pub held : Bool
  pub touch : Option Touch
  pub intervals : List ℕ
  pub next_id : ℕ

-- What the handlers read of the page: the number of slides where there is a stage (`hstage`),
-- REDUCED_MOTION, and `document.hidden`.
pub record Page : Type 0 where
  pub slides : Option ℕ
  pub reduced_motion : Bool
  pub hidden : Bool

-- `i % n`, which has the sign of `i`.
abbrev pub rem : ℤ → ℕ → ℤ
rem (pos a) n = pos (a % n)
rem (negsuc a) n = sub_ℕ 0 (suc a % n)

abbrev pub wrap : ℕ → ℤ → ℤ
wrap n i = rem (rem i n +ℤ pos n) n

unfoldable pub paint_hero : Page → Hero → Hero
paint_hero p h = elim p.slides [
  | none ↦ h
  | some n ↦ if nat_eq n 0 then h else record h { idx = wrap n h.idx }
]

abbrev pub clear_interval : Option ℕ → List ℕ → List ℕ
clear_interval none running = running
clear_interval (some t) running = keep (λ r. not (nat_eq r t)) running

pub data Reason : Type 0 where
  user : Reason
  leave : Reason

abbrev pub stopped_by : Reason → Bool → Bool
stopped_by Reason.user b = true
stopped_by Reason.leave b = b

unfoldable pub hero_stop : Reason → Hero → Hero
hero_stop reason h = record h {
  timer = none;
  intervals = clear_interval h.timer h.intervals;
  stopped = stopped_by reason h.stopped;
}

abbrev pub is_some : {A : Type 0} → Option A → Bool
is_some none = false
is_some (some a) = true

unfoldable pub hero_start : Page → Hero → Hero
hero_start p h =
    if p.reduced_motion
    then h
    else if is_some h.timer || (h.stopped || h.held)
    then h
    else if is_some p.slides
    then record h {
      timer = some h.next_id;
      intervals = h.next_id ∷ h.intervals;
      next_id = suc h.next_id;
    }
    else h

-- The callback of the interval `t`, which only a running interval calls.
unfoldable pub hero_tick : Page → ℕ → Hero → Hero
hero_tick p t h =
    if any (λ r. nat_eq r t) h.intervals
    then if p.hidden then h else paint_hero p (record h { idx = h.idx +ℤ pos 1 })
    else h

unfoldable pub hero_to : Page → ℕ → Hero → Hero
hero_to p i h = hero_stop Reason.user (paint_hero p (record h { idx = pos i }))

unfoldable pub hero_go : Page → ℤ → Hero → Hero
hero_go p d h = hero_stop Reason.user (paint_hero p (record h { idx = h.idx +ℤ d }))

-- `events` is the length of `heroEvents()`. The screen that is opened is painted by `render`.
unfoldable pub hero_open : (events i : ℕ) → Hero → Hero
hero_open events i h = if ltb i events then hero_stop Reason.user h else h

unfoldable pub hero_toggle : Page → Hero → Hero
hero_toggle p h =
    if is_some h.timer
    then hero_stop Reason.user h
    else hero_start p (record h { stopped = false; held = false })

abbrev pub same_bool : Bool → Bool → Bool
same_bool true b = b
same_bool false b = not b

unfoldable pub hero_hold : Page → Bool → Hero → Hero
hero_hold p on h =
    if same_bool h.held on
    then h
    else if on
    then record h { held = on; timer = none; intervals = clear_interval h.timer h.intervals }
    else hero_start p (record h { held = on })

-- `stays`: the focus went to a control of the slideshow.
unfoldable pub hero_focus_out : Page → (stays : Bool) → Hero → Hero
hero_focus_out p stays h = if stays then h else hero_hold p false h

-- `other_button`: a button of a mouse that is not the first one.
unfoldable pub hero_down : (other_button : Bool) → Touch → Hero → Hero
hero_down other_button t h = if other_button then h else record h { touch = some t }

abbrev pub abs_ℤ : ℤ → ℕ
abs_ℤ a = pos_part a + neg_part a

abbrev pub is_swipe : (dx dy : ℤ) → Bool
is_swipe dx dy = ltb 48 (abs_ℤ dx) && ltb (abs_ℤ dy * 16) (abs_ℤ dx * 10)

-- `hero_up`, where the touch began at `began`.
unfoldable pub lift_from : Page → (now : Touch) → Option Touch → Hero → Hero
lift_from p now none h = h
lift_from p now (some began) h =
    let dx = now.x -ℤ began.x in
    if is_swipe dx (now.y -ℤ began.y)
    then hero_go p (if ltb_ℤ dx (pos 0) then pos 1 else negsuc 0) (record h { touch = none })
    else record h { touch = none }

unfoldable pub hero_up : Page → Touch → Hero → Hero
hero_up p now h = lift_from p now h.touch h

pub data Key : Type 0 where
  arrow_left : Key
  arrow_right : Key
  other : Key

unfoldable pub hero_key : Page → Key → Hero → Hero
hero_key p Key.arrow_left h = hero_go p (negsuc 0) h
hero_key p Key.arrow_right h = hero_go p (pos 1) h
hero_key p Key.other h = h

-- `heroBlock()`, which keeps the slide that is shown among the `events`.
unfoldable pub hero_block : (events : ℕ) → Hero → Hero
hero_block events h =
    if nat_eq events 0 then h else if ltb_ℤ h.idx (pos events) then h else record h { idx = pos 0 }

-- The end of `render` on the public page.
unfoldable pub after_render : Page → (home : Bool) → Hero → Hero
after_render p home h = if home then hero_start p (paint_hero p h) else hero_stop Reason.leave h
