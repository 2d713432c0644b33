-- ===== src/Camera/Levels.antt =====
-- The command map: the level that is shown and the state in view agree, and what the reset fits to.
use aapda_sync.Base.Floats.{Floats}
use aapda_sync.Base.{
  ℕ, Bool, true, Option, none, some, String, List, ◌≡◌, ◌⊎◌, inl, inr, refl, ap, arith, any, find,
  str_eq,
}
use aapda_sync.Camera.{Box, Camera, fly_to, in_vb, state_vb}
use aapda_sync.Camera.Scope.{
  Scope, Country, Level, pick_state, map_home, go_world, enter_country, pick_country, most_critical,
  pick_some, focus_critical, zoom_reset, fitted_to,
}

module _ (F : Floats) where
  module _ (states : List String) (boxes : String → Option (Box F)) (reduced_motion : Bool) where
    -- What an operator does on the command map.
    pub data Moves (s : Scope F) : Scope F → Type 0 where
      picks_state :
          (now : F.Num) (id : String) → Moves s (pick_state F states boxes reduced_motion now id s)
      goes_home : (now : F.Num) → Moves s (map_home F states boxes reduced_motion now s)
      goes_out : (now : F.Num) → Moves s (go_world F states boxes reduced_motion now s)
      picks_country :
          (now : F.Num) (countries : List (Country F)) (id : String)
          → Moves s (pick_country F states boxes reduced_motion now countries id s)
      goes_critical :
          (now : F.Num) (risks : List (String × Option ℕ))
          → Moves s (focus_critical F states boxes reduced_motion now risks s)
      resets : (now : F.Num) → Moves s (zoom_reset F states boxes reduced_motion now s)

    pub data Reach (a : Scope F) : Scope F → Type 0 where
      here : Reach a a
      next : {b c : Scope F} → Reach a b → Moves b c → Reach a c

    -- The level and the state that is in view agree; at the level of the country no state is in view, or
    -- the one, `first`, that was when the map was entered.
    abbrev pub Agree :
        (first : Option String) → Level → Option String → (focus : Option String) → Type 0
    Agree first Level.state none focus = ⊥
    Agree first Level.state (some id) focus =
        (focus ≡ some id) × (any (λ t. str_eq t id) states ≡ true)
    Agree first Level.country map_focus focus = (map_focus ≡ none) ⊎ (map_focus ≡ first)
    Agree first Level.world map_focus focus = map_focus ≡ none

    abbrev IsAgreed : Option String → Scope F → Type 0
    IsAgreed first s = Agree first s.level s.map_focus s.focus

    pick_state-IsAgreed :
        (first : Option String) (now : F.Num) (id : String) (s : Scope F)
        → IsAgreed first s
        → IsAgreed first (pick_state F states boxes reduced_motion now id s)
    unfolding pick_state
    pick_state-IsAgreed first now id s h = ground arith

    enter_country-IsAgreed :
        (first : Option String) (now : F.Num) (c : Option (Country F)) (s : Scope F)
        → IsAgreed first s
        → IsAgreed first (enter_country F states boxes reduced_motion now c s)
    unfolding enter_country
    enter_country-IsAgreed first now none s h = h
    enter_country-IsAgreed first now (some c) s h = ground arith

    pick_some-IsAgreed :
        (first : Option String) (now : F.Num) (o : Option String) (s : Scope F)
        → IsAgreed first s
        → IsAgreed first (pick_some F states boxes reduced_motion now o s)
    pick_some-IsAgreed first now none s h = h
    pick_some-IsAgreed first now (some id) s h = pick_state-IsAgreed first now id s h

    Moves-IsAgreed :
        (first : Option String) {s t : Scope F} → Moves s t → IsAgreed first s → IsAgreed first t
    unfolding map_home go_world focus_critical zoom_reset
    Moves-IsAgreed first {s} (Moves.picks_state now id) h = pick_state-IsAgreed first now id s h
    Moves-IsAgreed first (Moves.goes_home now) h = inl refl
    Moves-IsAgreed first (Moves.goes_out now) h = refl
    Moves-IsAgreed first {s} (Moves.picks_country now countries id) h =
        enter_country-IsAgreed first now (find (λ (c : Country F). str_eq c.id id) countries) s h
    Moves-IsAgreed first {s} (Moves.goes_critical now risks) h =
        pick_some-IsAgreed first now (most_critical F risks none) s h
    Moves-IsAgreed first (Moves.resets now) h = h

    Reach-IsAgreed :
        (first : Option String) {a b : Scope F} → IsAgreed first a → Reach a b → IsAgreed first b
    Reach-IsAgreed first h Reach.here = h
    Reach-IsAgreed first h (Reach.next r m) = Moves-IsAgreed first m (Reach-IsAgreed first h r)

    -- The box that the reset should show, for what the map shows.
    abbrev pub Fits :
        (first : Option String) → Level → (map_focus focus : Option String) → Box F → Type 0
    Fits first Level.state map_focus (some id) b = b ≡ state_vb F (boxes id)
    Fits first Level.state map_focus none b = ⊥
    Fits first Level.country map_focus focus b =
        ((map_focus ≡ none) × (b ≡ in_vb F)) ⊎ ((map_focus ≡ first) × (b ≡ fitted_to F boxes first))
    Fits first Level.world map_focus focus b = b ≡ in_vb F

    fly_to-target :
        (now : F.Num) (b : Box F) (cam : Camera F)
        → (fly_to F reduced_motion now b 560 cam).vb_to ≡ b
    unfolding fly_to
    fly_to-target now b cam = ground arith

    Agree-Fits :
        (first : Option String) (l : Level) (map_focus focus : Option String)
        → Agree first l map_focus focus
        → Fits first l map_focus focus (fitted_to F boxes map_focus)
    Agree-Fits first Level.state none focus h = elim h [ ]
    Agree-Fits first Level.state (some id) focus h = rw (h.0) refl
    Agree-Fits first Level.country map_focus focus (inl h) = inl (h, ap (fitted_to F boxes) h)
    Agree-Fits first Level.country map_focus focus (inr h) = inr (h, ap (fitted_to F boxes) h)
    Agree-Fits first Level.world map_focus focus h = rw h refl

    -- Whatever the operator does on the command map, from the level of the country on: at the level of a
    -- state the reset frames the state whose data are loaded. At the level of the country it frames India
    -- where no state is in view; otherwise the state in view is still the one with which the map was
    -- entered, and it frames that one. At the level of the world it frames India, in the coordinates of
    -- the country's map.
    pub Reach-zoom_reset :
        (now : F.Num) (a b : Scope F)
        → a.level ≡ Level.country
        → Reach a b
        → Fits a.map_focus b.level b.map_focus b.focus
            (zoom_reset F states boxes reduced_motion now b).cam.vb_to
    unfolding zoom_reset
    Reach-zoom_reset now a b e r =
        let entered : IsAgreed a.map_focus a = rw e (inr refl) in
        rw (fly_to-target now (fitted_to F boxes b.map_focus) b.cam) (
          Agree-Fits a.map_focus b.level b.map_focus b.focus
            (Reach-IsAgreed a.map_focus {a = a} entered r))
