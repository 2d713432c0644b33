-- ===== src/Camera/Scope.antt =====
-- Which part of the world the map shows: map.js `pickState`, `mapHome` and `focusCritical`; geo.js
-- `goWorld`, `pickCountry` and `quakesNear`; ui.js `zoomReset`; citizen.js `czWholeIndia` and
-- `czMyState`; and the lines of `render` (views.js) that frame the public map. The operational data
-- that `loadState` loads are left out here.
use aapda_sync.Base.Floats.{Floats, num}
use aapda_sync.Base.{
  ℕ, Bool, true, false, not, ◌&&◌, Option, none, some, String, List, [], ◌∷◌, if◌then◌else◌, any,
  find, keep, str_eq, ltb, or_else,
}
use aapda_sync.Camera.{Box, Bounds, Camera, fly_to, in_vb, state_vb, country_vb}

pub data Level : Type 0 where
  world country state : Level

module _ (F : Floats) where
  -- `S.focus`, `S.mapFocus`, `GEO` and the camera; `cz_framed` is `S.czFramed`.
  pub record Scope : Type 0 where
    pub focus : Option String
    pub map_focus : Option String
    pub level : Level
    pub geo_country : String
    pub hover_country : Option String
    pub cz_framed : Bool
    pub cam : Camera F

  pub record Country : Type 0 where
    pub id : String
    pub bbox : Bounds F

  -- A row of WORLD_QUAKES.
  pub record Quake : Type 0 where
    pub lon : F.Num
    pub lat : F.Num

  abbrev pub world_vb : Box F
  world_vb = record {
    x = F.sub (num F 0) (num F 182);
    y = F.sub (num F 0) (num F 84);
    w = num F 364;
    h = num F 152;
  }

  abbrev pub at_most : F.Num → F.Num → Bool
  at_most a b = not (F.lt b a)

  -- `quakesNear(c)`
  unfoldable pub quakes_near : Country → List Quake → List Quake
  quakes_near c = keep λ (q : Quake).
      (at_most c.bbox.x0 q.lon && at_most q.lon c.bbox.x1)
      && (at_most c.bbox.y0 q.lat && at_most q.lat c.bbox.y1)

  -- The box that `zoomReset` moves to.
  abbrev pub fitted_to : (boxes : String → Option (Box F)) → Option String → Box F
  fitted_to boxes none = in_vb F
  fitted_to boxes (some id) = state_vb F (boxes id)

  -- The loop of `focusCritical`: the first of the highest risks, of the hazard in view.
  unfoldable pub most_critical : List (String × Option ℕ) → Option (String × ℕ) → Option String
  most_critical [] none = none
  most_critical [] (some (id, v)) = some id
  most_critical ((id, none) ∷ rest) best = most_critical rest best
  most_critical ((id, some r) ∷ rest) none = most_critical rest (some (id, r))
  most_critical ((id, some r) ∷ rest) (some (b, v)) =
      most_critical rest (if ltb v r then some (id, r) else some (b, v))

  -- The ids of `S.states`, the boxes of BBOX, the time, and REDUCED_MOTION.
  module _ (states : List String) (boxes : String → Option (Box F)) (reduced_motion : Bool)
      (now : F.Num) where
    abbrev pub fly : Box F → Scope → Scope
    fly b s = record s { cam = fly_to F reduced_motion now b 560 s.cam }

    abbrev pub has_state : String → Bool
    has_state id = any (λ t. str_eq t id) states

    unfoldable pub pick_state : String → Scope → Scope
    pick_state id s =
        if has_state id
        then fly (state_vb F (boxes id))
            (record s { focus = some id; level = Level.state; map_focus = some id })
        else s

    unfoldable pub map_home : Scope → Scope
    map_home s = fly (in_vb F) (record s { map_focus = none; level = Level.country })

    unfoldable pub go_world : Scope → Scope
    go_world s = fly world_vb (record s { map_focus = none; level = Level.world })

    unfoldable pub enter_country : Option Country → Scope → Scope
    enter_country none s = s
    enter_country (some c) s =
        if str_eq c.id "356"
        then fly (in_vb F)
            (record s { level = Level.country; geo_country = "356"; map_focus = none })
        else fly (country_vb F c.bbox) (record s { hover_country = some c.id })

    abbrev pub pick_country : List Country → String → Scope → Scope
    pick_country countries id s = enter_country (find (λ (c : Country). str_eq c.id id) countries) s

    abbrev pub pick_some : Option String → Scope → Scope
    pick_some none s = s
    pick_some (some id) s = pick_state id s

    -- `focusCritical()`, for the risks of the states.
    unfoldable pub focus_critical : List (String × Option ℕ) → Scope → Scope
    focus_critical risks s = pick_some (most_critical risks none) s

    unfoldable pub zoom_reset : Scope → Scope
    zoom_reset s = fly (fitted_to boxes s.map_focus) s

    -- The buttons of the public map.
    unfoldable pub cz_whole_india : Scope → Scope
    cz_whole_india s = fly (in_vb F) (record s { map_focus = none })

    unfoldable pub cz_my_state : Scope → Scope
    cz_my_state s =
        let id = or_else s.focus "ut" in
        fly (state_vb F (boxes id)) (record s { map_focus = some id })

    abbrev pub is_none : Option String → Bool
    is_none none = true
    is_none (some id) = false

    -- `render` on the public page, where `home` says that the landing page is shown.
    unfoldable pub frame_public : (home : Bool) → Scope → Scope
    frame_public home s =
        let id = or_else s.focus "ut" in
        let box = state_vb F (boxes id) in
        if home && (is_none s.map_focus && not s.cz_framed)
        then record s {
          cz_framed = true;
          map_focus = some id;
          cam = record s.cam { vb = box; vb_to = box };
        }
        else s
