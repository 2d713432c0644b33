-- ===== src/States/Headlines.antt =====
-- states.js `alertHead`: the headline scales with the severity.
use aapda_sync.Base.{◌||◌, String, List, [], ◌∷◌, if◌then◌else◌, str_eq, joined}

abbrev pub graded : (high mid low sev : String) → String
graded high mid low sev =
    if str_eq sev "Extreme" || str_eq sev "Severe"
    then high
    else if str_eq sev "Moderate"
    then mid
    else low

-- `names.join(sep)`
abbrev pub joined_by : String → List String → String
joined_by sep [] = ""
joined_by sep (a ∷ []) = a
joined_by sep (a ∷ b ∷ rest) = joined (a ∷ sep ∷ joined_by sep (b ∷ rest) ∷ [])

-- `alertHead(h, where, state, sev)`
unfoldable pub alert_head : (h : String) (places : List String) (state sev : String) → String
alert_head h places state sev =
    let w = joined_by " and " places in
    if str_eq h "flood"
    then graded (joined ("River above danger level at " ∷ w ∷ []))
        (joined ("River rising towards warning level at " ∷ w ∷ []))
        (joined ("River levels being monitored at " ∷ w ∷ [])) sev
    else if str_eq h "landslide"
    then graded (joined ("High landslide risk on the hill roads around " ∷ w ∷ []))
        (joined ("Slope instability possible around " ∷ w ∷ []))
        (joined ("Routine slope monitoring around " ∷ w ∷ [])) sev
    else if str_eq h "cyclone"
    then graded (joined ("Cyclonic circulation likely to affect " ∷ w ∷ []))
        (joined ("A low-pressure area is being tracked off the " ∷ state ∷ " coast" ∷ []))
        (joined ("Sea conditions off " ∷ state ∷ " under routine watch" ∷ [])) sev
    else if str_eq h "earthquake"
    then graded (joined ("Significant seismic activity recorded near " ∷ w ∷ []))
        (joined ("Moderate seismic activity recorded near " ∷ w ∷ []))
        (joined ("Routine seismic monitoring near " ∷ w ∷ [])) sev
    else if str_eq h "heatwave"
    then graded (joined ("Heatwave conditions very likely over " ∷ w ∷ []))
        (joined ("Daytime temperatures running above normal over " ∷ w ∷ []))
        (joined ("Temperatures within seasonal range over " ∷ w ∷ [])) sev
    else if str_eq h "drought"
    then graded (joined ("Cumulative rainfall well below normal over " ∷ w ∷ []))
        (joined ("Rainfall running below normal over " ∷ w ∷ []))
        (joined ("Rainfall being monitored against the long-period average over " ∷ w ∷ [])) sev
    else if str_eq h "lightning"
    then graded (joined ("Thunderstorm with lightning likely at " ∷ w ∷ []))
        (joined ("Isolated thunderstorms possible at " ∷ w ∷ []))
        (joined ("Convective activity being monitored over " ∷ w ∷ [])) sev
    else if str_eq h "wildfire"
    then graded (joined ("Active fire detections in the forest divisions near " ∷ w ∷ []))
        (joined ("Elevated fire danger in the forest divisions near " ∷ w ∷ []))
        (joined ("Forest fire danger within normal limits near " ∷ w ∷ [])) sev
    else if str_eq h "tsunami"
    then graded (joined ("Tsunami bulletin in force for the " ∷ state ∷ " coast" ∷ []))
        (joined ("No tsunami threat. The " ∷ state ∷ " coast remains under routine watch" ∷ []))
        (joined ("No tsunami threat. The " ∷ state ∷ " coast remains under routine watch" ∷ [])) sev
    else "undefined"
