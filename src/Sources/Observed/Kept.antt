-- ===== src/Sources/Observed/Kept.antt =====
-- livedata.js: what the observations leave of a state's risks.
use aapda_sync.Base.{
  ℕ, ◌≤◌, Bool, true, false, Option, none, some, String, List, [], ◌∷◌, ◌≡◌, refl, sym, ◌∙◌, arith,
  ◌⊎◌, inl, inr, lookup, lookup-insert, Bool-cases, str_eq_iff, str_eq, ap, if◌then◌else◌, not,
  ◌&&◌,
}
use aapda_sync.Base.Int.{ℤ, pos, negsuc}
use aapda_sync.Base.Floats.{Floats, num}
use aapda_sync.Sources.Observed.{
  State, Maths, Obs, Quake, Hazard, put_risk, put_held, observe, observe_weather, within_scale,
  clamp_score, obs_risk, quake_risk_for, apply_to_state, key_of, is_cyclone, weather_source,
  score_of, score_of_both, is_given, weather_hazards, best_quake,
}

-- Before and after agree on the hazard; or the state had it, and now shows a score of the scale, as
-- a live one.
abbrev pub Replaced : (hazard : String) (before after : State) → Type 0
Replaced hazard before after =
    (w v : ℕ) × (lookup hazard before.hz ≡ some w)
    × (lookup hazard after.hz ≡ some v)
    × (lookup hazard after.live ≡ some v)
    × (2 ≤ v)
    × (v ≤ 99)

abbrev pub Kept : (hazard : String) (before after : State) → Type 0
Kept hazard before after =
    (lookup hazard after.hz ≡ lookup hazard before.hz)
    × (lookup hazard after.live ≡ lookup hazard before.live)

abbrev pub Followed : (hazard : String) (before after : State) → Type 0
Followed hazard before after = Kept hazard before after ⊎ Replaced hazard before after

Followed-trans :
    (hazard : String) (a b c : State)
    → Followed hazard a b
    → Followed hazard b c
    → Followed hazard a c
Followed-trans hazard a b c (inl (e, e')) (inl (f, f')) = inl (f ∙ e, f' ∙ e')
Followed-trans hazard a b c (inl (e, e')) (inr (w, v, h, i, j, lo, hi)) =
    inr (w, v, sym e ∙ h, i, j, lo, hi)
Followed-trans hazard a b c (inr (w, v, h, i, j, lo, hi)) (inl (f, f')) =
    inr (w, v, h, f ∙ i, f' ∙ j, lo, hi)
Followed-trans hazard a b c (inr (w, v, h, i, j, lo, hi)) (inr (w', v', h', i', j', lo', hi')) =
    inr (w, v', h, i', j', lo', hi')

-- A score of the scale, if there is one.
abbrev pub InScale : Option ℕ → Type 0
InScale none = Unit
InScale (some v) = (2 ≤ v) × (v ≤ 99)

if-InScale : (b : Bool) (o : Option ℕ) → InScale o → InScale (if b then none else o)
if-InScale true o k = tt
if-InScale false o k = k

if_some-InScale : (b : Bool) (o : Option ℕ) → InScale o → InScale (if b then o else none)
if_some-InScale true o k = k
if_some-InScale false o k = tt

within_scale-InScale : (v : ℤ) → (2 ≤ within_scale v) × (within_scale v ≤ 99)
unfolding within_scale
within_scale-InScale (pos v) = (omega arith, omega arith)
within_scale-InScale (negsuc v) = (omega arith, omega arith)

put_risk-Followed :
    (hazard written source : String) (v w : ℕ) (st : State)
    → lookup written st.hz ≡ some w
    → InScale (some v)
    → Followed hazard st (put_risk written source v st)
unfolding put_risk
put_risk-Followed hazard written source v w st e k = elim (Bool-cases (str_eq written hazard)) [
  | inl y ↦
      (let same = (str_eq_iff written hazard).0 y in
        inr (
          w,
          v,
          ap (λ x. lookup x st.hz) (sym same) ∙ e,
          lookup-insert written hazard v st.hz
              ∙ ap (λ b. if b then some v else lookup hazard st.hz) y,
          lookup-insert written hazard v st.live
              ∙ ap (λ b. if b then some v else lookup hazard st.live) y,
          k.0,
          k.1,
        ))
  | inr n ↦ inl (
    lookup-insert written hazard v st.hz ∙ ap (λ b. if b then some v else lookup hazard st.hz) n,
    lookup-insert written hazard v st.live
        ∙ ap (λ b. if b then some v else lookup hazard st.live) n,
  )
]

put_held-Followed :
    (held : Option ℕ) (hazard written source : String) (v : Option ℕ) (st : State)
    → lookup written st.hz ≡ held
    → InScale v
    → Followed hazard st (put_held held written source v st).0
unfolding put_held
put_held-Followed none hazard written source v st e k = inl (refl, refl)
put_held-Followed (some w) hazard written source none st e k = inl (refl, refl)
put_held-Followed (some w) hazard written source (some v) st e k =
    put_risk-Followed hazard written source v w st e k

observe-Followed :
    (hazard written source : String) (v : Option ℕ) (st : State)
    → InScale v
    → Followed hazard st (observe written source v st).0
unfolding observe
observe-Followed hazard written source v st k =
    put_held-Followed (lookup written st.hz) hazard written source v st refl k

observe_weather-Followed :
    (hazard : String) (flood_ok gauged : Bool) (risk : Hazard → Option ℕ)
    → ((h : Hazard) → InScale (risk h))
    → (hs : List Hazard) (st : State)
    → Followed hazard st (observe_weather flood_ok gauged risk hs st).0
unfolding observe_weather
observe_weather-Followed hazard flood_ok gauged risk k [] st = inl (refl, refl)
observe_weather-Followed hazard flood_ok gauged risk k (h ∷ hs) st =
    let v = if is_cyclone h && not st.coastal then none else risk h in
    let source = weather_source flood_ok gauged h in
    let one = (observe (key_of h) source v st).0 in
    Followed-trans hazard st one (observe_weather flood_ok gauged risk hs one).0
      (observe-Followed hazard (key_of h) source v st
        (if-InScale (is_cyclone h && not st.coastal) (risk h) (k h)))
      (observe_weather-Followed hazard flood_ok gauged risk k hs one)

if-Followed :
    (b : Bool) (hazard : String) (a : State) (x y : State × ℕ)
    → Followed hazard a x.0
    → Followed hazard a y.0
    → Followed hazard a (if b then x else y).0
if-Followed true hazard a x y k k' = k
if-Followed false hazard a x y k k' = k'

module _ (F : Floats) (M : Maths F.Num) where
  score_of-InScale : (f : F.Num → F.Num) (o : Option F.Num) → InScale (score_of F M f o)
  unfolding clamp_score
  score_of-InScale f none = tt
  score_of-InScale f (some a) = within_scale-InScale (M.nearest (f a))

  score_of_both-InScale :
      (f : F.Num → F.Num → F.Num) (a b : Option F.Num) → InScale (score_of_both F M f a b)
  score_of_both-InScale f none b = tt
  score_of_both-InScale f (some a) b = score_of-InScale (f a) b

  obs_risk-InScale : (o : Obs F M) (h : Hazard) → InScale (obs_risk F M o h)
  unfolding obs_risk
  obs_risk-InScale o Hazard.flood = score_of-InScale _ o.rain24
  obs_risk-InScale o Hazard.landslide = score_of-InScale _ o.rain72
  obs_risk-InScale o Hazard.heatwave = score_of-InScale _ o.tmax
  obs_risk-InScale o Hazard.drought = score_of-InScale _ o.rain7d
  obs_risk-InScale o Hazard.wildfire = score_of_both-InScale _ o.tmax o.rain7d
  obs_risk-InScale o Hazard.lightning = score_of-InScale _ o.cape
  obs_risk-InScale o Hazard.cyclone = score_of-InScale _ o.gust
  obs_risk-InScale o Hazard.earthquake = tt

  quake_risk_for-InScale :
      (lat lon : F.Num) (quakes : List (Quake F M)) → InScale (quake_risk_for F M lat lon quakes)
  unfolding quake_risk_for clamp_score
  quake_risk_for-InScale lat lon [] = tt
  quake_risk_for-InScale lat lon (q ∷ qs) =
      let best = best_quake F M lat lon (q ∷ qs) (num F 0) in
      if_some-InScale (F.lt (num F 0) best) (some (clamp_score F M best))
        (within_scale-InScale (M.nearest best))

  -- The observations, whatever they are and whichever are fresh, leave a state's risk of a hazard and
  -- its live risk as they were; or the state had the hazard, and both its risk and its live risk are
  -- now one number from 2 to 99. So no hazard is added to a state that does not have it.
  pub apply_to_state-Followed :
      (hazard : String) (weather_ok flood_ok quake_ok : Bool) (o : Obs F M) (lat lon : F.Num)
      (quakes : List (Quake F M)) (st : State)
      → Followed hazard st (apply_to_state F M weather_ok flood_ok quake_ok o lat lon quakes st).0
  unfolding apply_to_state
  apply_to_state-Followed hazard weather_ok flood_ok quake_ok o lat lon quakes st =
      let weather =
        if weather_ok
        then observe_weather flood_ok (is_given o.discharge_ratio) (obs_risk F M o) weather_hazards
            st
        else (st, 0) in
      let risk = quake_risk_for F M lat lon quakes in
      Followed-trans hazard st weather.0
        (if quake_ok then observe "earthquake" "usgs" risk weather.0 else (weather.0, 0)).0
        (if-Followed weather_ok hazard st
          (observe_weather flood_ok (is_given o.discharge_ratio) (obs_risk F M o) weather_hazards
            st)
          (st, 0)
          (observe_weather-Followed hazard flood_ok (is_given o.discharge_ratio) (obs_risk F M o)
            (obs_risk-InScale o) weather_hazards st)
          (inl (refl, refl)))
        (if-Followed quake_ok hazard weather.0 (observe "earthquake" "usgs" risk weather.0)
          (weather.0, 0)
          (observe-Followed hazard "earthquake" "usgs" risk weather.0
            (quake_risk_for-InScale lat lon quakes))
          (inl (refl, refl)))
