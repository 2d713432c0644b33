-- ===== src/Slideshow/Alone.antt =====
-- citizen.js: the events of the slideshow as the steps of one relation, and its interval.
use aapda_sync.Base.Int.{ℤ, pos, negsuc, ◌+ℤ◌, ◌-ℤ◌, ltb_ℤ}
use aapda_sync.Base.{
  ℕ, Bool, true, false, Option, none, some, List, [], ◌∷◌, ◌≡◌, refl, arith, nat_eq_iff, inl, inr,
  Option-cases, Bool-cases, if◌then◌else◌, ltb, nat_eq, any,
}
use aapda_sync.Slideshow.{
  Hero, Touch, Page, Reason, Key, paint_hero, clear_interval, hero_stop, hero_start, hero_tick,
  hero_to, hero_go, hero_open, hero_toggle, hero_hold, hero_focus_out, hero_down, hero_up, hero_key,
  hero_block, after_render, is_swipe, lift_from, same_bool,
}

-- What may happen, in any order and on any state of the page.
pub data Step (h : Hero) : Hero → Type 0 where
  ticks : (p : Page) (t : ℕ) → Step h (hero_tick p t h)
  dots : (p : Page) (i : ℕ) → Step h (hero_to p i h)
  goes : (p : Page) (d : ℤ) → Step h (hero_go p d h)
  opens : (events i : ℕ) → Step h (hero_open events i h)
  toggles : (p : Page) → Step h (hero_toggle p h)
  holds : (p : Page) (on : Bool) → Step h (hero_hold p on h)
  focus_leaves : (p : Page) (stays : Bool) → Step h (hero_focus_out p stays h)
  presses : (other_button : Bool) (t : Touch) → Step h (hero_down other_button t h)
  lifts : (p : Page) (t : Touch) → Step h (hero_up p t h)
  types : (p : Page) (k : Key) → Step h (hero_key p k h)
  writes : (events : ℕ) → Step h (hero_block events h)
  paints : (p : Page) (home : Bool) → Step h (after_render p home h)

pub data Reach (a : Hero) : Hero → Type 0 where
  here : Reach a a
  next : {b c : Hero} → Reach a b → Step b c → Reach a c

-- The variables as the page begins.
abbrev pub start : Hero
start = record {
  idx = pos 0;
  timer = none;
  stopped = false;
  held = false;
  touch = none;
  intervals = [];
  next_id = 1;
}

-- The intervals that run are the one that `heroTimer` names, if it names one, and then the slideshow
-- is neither stopped nor held.
abbrev pub Alone : Option ℕ → List ℕ → (stopped held : Bool) → Type 0
Alone none running stopped held = running ≡ []
Alone (some t) running stopped held = (running ≡ t ∷ []) × (stopped ≡ false) × (held ≡ false)

abbrev pub IsAlone : Hero → Type 0
IsAlone h = Alone h.timer h.intervals h.stopped h.held

clear_interval-nil :
    (o : Option ℕ) (running : List ℕ) (stopped held : Bool)
    → Alone o running stopped held
    → clear_interval o running ≡ []
clear_interval-nil none running stopped held k = k
clear_interval-nil (some t) running stopped held k = ground (arith, nat_eq_iff t t)

stop-IsAlone : (r : Reason) (h : Hero) → IsAlone h → IsAlone (hero_stop r h)
unfolding hero_stop
stop-IsAlone r h k = clear_interval-nil h.timer h.intervals h.stopped h.held k

paint-IsAlone : (p : Page) (h : Hero) → IsAlone h → IsAlone (paint_hero p h)
unfolding paint_hero
paint-IsAlone p h k = ground arith

start-IsAlone : (p : Page) (h : Hero) → IsAlone h → IsAlone (hero_start p h)
unfolding hero_start
start-IsAlone p h k = ground arith

if-IsAlone : (b : Bool) (h h' : Hero) → IsAlone h → IsAlone h' → IsAlone (if b then h else h')
if-IsAlone true h h' k k' = k
if-IsAlone false h h' k k' = k'

go-IsAlone : (p : Page) (d : ℤ) (h : Hero) → IsAlone h → IsAlone (hero_go p d h)
unfolding hero_go
go-IsAlone p d h k = stop-IsAlone Reason.user _ (paint-IsAlone p _ k)

play-IsAlone :
    (p : Page) (h : Hero)
    → h.timer ≡ none
    → IsAlone h
    → IsAlone (hero_start p (record h { stopped = false; held = false }))
play-IsAlone p h e k = start-IsAlone p _ (ground arith)

toggle-IsAlone : (p : Page) (h : Hero) → IsAlone h → IsAlone (hero_toggle p h)
unfolding hero_toggle
toggle-IsAlone p h k = elim (Option-cases h.timer) [
  | inl e ↦ ground (arith, play-IsAlone p h e k)
  | inr (t, e) ↦ ground (arith, stop-IsAlone Reason.user h k)
]

release-IsAlone :
    (p : Page) (h : Hero)
    → h.held ≡ true
    → IsAlone h
    → IsAlone (hero_start p (record h { held = false }))
release-IsAlone p h e k = start-IsAlone p _ (ground arith)

hold-IsAlone : (p : Page) (on : Bool) (h : Hero) → IsAlone h → IsAlone (hero_hold p on h)
unfolding hero_hold
hold-IsAlone p true h k =
    if-IsAlone (same_bool h.held true) h
      (record h { held = true; timer = none; intervals = clear_interval h.timer h.intervals }) k
      (clear_interval-nil h.timer h.intervals h.stopped h.held k)
hold-IsAlone p false h k = elim (Bool-cases h.held) [
  | inl e ↦
      if-IsAlone (same_bool h.held false) h (hero_start p (record h { held = false })) k
        (release-IsAlone p h e k)
  | inr e ↦ ground arith
]

tick-IsAlone : (p : Page) (t : ℕ) (h : Hero) → IsAlone h → IsAlone (hero_tick p t h)
unfolding hero_tick
tick-IsAlone p t h k =
    if-IsAlone (any (λ r. nat_eq r t) h.intervals) _ h
      (if-IsAlone p.hidden h _ k (paint-IsAlone p (record h { idx = h.idx +ℤ pos 1 }) k)) k

lift-IsAlone :
    (p : Page) (t : Touch) (o : Option Touch) (h : Hero) → IsAlone h → IsAlone (lift_from p t o h)
unfolding lift_from
lift-IsAlone p t none h k = k
lift-IsAlone p t (some began) h k =
    if-IsAlone (is_swipe (t.x -ℤ began.x) (t.y -ℤ began.y)) _ _
      (go-IsAlone p _ (record h { touch = none }) k) k

Step-IsAlone : {a b : Hero} → Step a b → IsAlone a → IsAlone b
unfolding hero_to hero_open hero_focus_out hero_down hero_up hero_key hero_block after_render
Step-IsAlone (Step.ticks p t) k = tick-IsAlone p t _ k
Step-IsAlone (Step.dots p i) k = stop-IsAlone Reason.user _ (paint-IsAlone p _ k)
Step-IsAlone (Step.goes p d) k = go-IsAlone p d _ k
Step-IsAlone (Step.opens events i) k =
    if-IsAlone (ltb i events) _ _ (stop-IsAlone Reason.user _ k) k
Step-IsAlone (Step.toggles p) k = toggle-IsAlone p _ k
Step-IsAlone (Step.holds p on) k = hold-IsAlone p on _ k
Step-IsAlone (Step.focus_leaves p stays) k = if-IsAlone stays _ _ k (hold-IsAlone p false _ k)
Step-IsAlone (Step.presses other_button t) k = if-IsAlone other_button _ _ k k
Step-IsAlone {a} (Step.lifts p t) k = lift-IsAlone p t a.touch _ k
Step-IsAlone (Step.types p Key.arrow_left) k = go-IsAlone p (negsuc 0) _ k
Step-IsAlone (Step.types p Key.arrow_right) k = go-IsAlone p (pos 1) _ k
Step-IsAlone (Step.types p Key.other) k = k
Step-IsAlone {a} (Step.writes events) k =
    if-IsAlone (nat_eq events 0) _ _ k (if-IsAlone (ltb_ℤ a.idx (pos events)) _ _ k k)
Step-IsAlone (Step.paints p true) k = start-IsAlone p _ (paint-IsAlone p _ k)
Step-IsAlone (Step.paints p false) k = stop-IsAlone Reason.leave _ k

Reach-IsAlone : {h : Hero} → Reach start h → IsAlone h
Reach-IsAlone Reach.here = refl
Reach-IsAlone (Reach.next r s) = Step-IsAlone s (Reach-IsAlone r)

-- Whatever happens to the slideshow, in whatever order: the browser runs no interval of it but the
-- one that `heroTimer` names, at most one, and none while the slideshow is stopped or held.
pub Reach-Alone : (h : Hero) → Reach start h → Alone h.timer h.intervals h.stopped h.held
Reach-Alone h r = Reach-IsAlone r
