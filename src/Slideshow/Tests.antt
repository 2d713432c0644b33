-- ===== src/Slideshow/Tests.antt =====
-- A slideshow that is started, turned by its interval, held, let go and stopped.
use aapda_sync.Base.Int.{pos, negsuc, ◌+ℤ◌}
use aapda_sync.Base.{true, false, some, [], ◌∷◌, ◌≡◌, refl}
use aapda_sync.Slideshow.{
  Hero, Page, after_render, paint_hero, hero_tick, hero_hold, hero_go, hero_start, hero_stop,
}
use aapda_sync.Slideshow.Alone.{Step, Reach, start, Alone, Reach-Alone}

abbrev page : Page
page = record { slides = some 3; reduced_motion = false; hidden = false }

abbrev running : Hero
running = hero_tick page 1 (after_render page true start)

abbrev released : Hero
released = hero_hold page false (hero_hold page true running)

run : Reach start released
run =
    Reach.next
      (Reach.next (Reach.next (Reach.next Reach.here (Step.paints page true)) (Step.ticks page 1))
        (Step.holds page true))
      (Step.holds page false)

Reach-Alone_example : Alone released.timer released.intervals released.stopped released.held
Reach-Alone_example = Reach-Alone released run

released-runs : (released.timer ≡ some 2) × (released.intervals ≡ 2 ∷ [])
unfolding hero_hold ◌+ℤ◌ hero_tick after_render paint_hero hero_start
released-runs = (refl, refl)

back_from_first : (hero_go page (negsuc 0) start).idx ≡ pos 2
unfolding ◌+ℤ◌ hero_go hero_stop paint_hero
back_from_first = refl
