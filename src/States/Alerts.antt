-- ===== src/States/Alerts.antt =====
-- states.js `buildStateAlerts` with `sevFor` and `alertHead`. Every text of the tables holds `{SDMA}`
-- only where it is all of it.
use Prim.Native.Nat.{◌/◌, ◌%◌}
use aapda_sync.Base.{
  ℕ, suc, ◌+◌, ◌*◌, Option, some, ◌>>=◌, String, List, [], ◌∷◌, map, take, keep, lookup, get_elem?,
  or_else, if◌then◌else◌, leb, str_eq, joined,
}
use aapda_sync.Base.Highest.{highest_first}
use aapda_sync.Base.Fractions.{lerp, rounded}
use aapda_sync.States.{Profile}
use aapda_sync.States.Headlines.{alert_head, joined_by}
use aapda_sync.States.Hash.{zhash, share}
use aapda_sync.States.Seed.{by_score}
use aapda_sync.States.Cells.{Cell}

-- ALERT_AUTH: the authority and the event.
abbrev pub alert_auth : List (String × (String × String))
alert_auth =
    (
      "flood",
      (
        "Central Water Commission, Flood Forecasting Directorate",
        "River in Severe Flood Situation",
      ),
    )
    ∷ ("landslide", ("{SDMA}", "Landslide Warning"))
    ∷ ("cyclone", ("India Meteorological Department, Cyclone Warning Division", "Cyclone Alert"))
    ∷ ("earthquake", ("National Center for Seismology", "Earthquake Information"))
    ∷ ("heatwave", ("India Meteorological Department", "Heatwave Warning"))
    ∷ ("drought", ("India Meteorological Department", "Rainfall Deficiency Advisory"))
    ∷ ("lightning", ("India Meteorological Department", "Thunderstorm with Lightning"))
    ∷ ("wildfire", ("Forest Survey of India / State Forest Department", "Forest Fire Alert"))
    ∷ ("tsunami", ("INCOIS · Indian Tsunami Early Warning Centre", "Tsunami Bulletin"))
    ∷ []

-- ALERT_INST
abbrev pub alert_inst : List (String × String)
alert_inst =
    (
      "flood",
      "Riverside settlements to move to designated relief camps. Do not cross flooded causeways.",
    )
    ∷ ("landslide", "Avoid halting below cut slopes. Hill roads restricted to emergency traffic.")
    ∷ (
      "cyclone",
      "Move to a designated cyclone shelter. Secure loose roofing. Fishermen not to venture out.",
    )
    ∷ (
      "earthquake",
      "Drop, cover and hold. Check for structural damage before re-entering buildings.",
    )
    ∷ (
      "heatwave",
      "Avoid outdoor exposure between 12:00 and 16:00. Drink water frequently even without thirst.",
    )
    ∷ (
      "drought",
      "Follow the district water rationing schedule. Report failed handpumps to the block office.",
    )
    ∷ ("lightning", "Take shelter indoors. Avoid open fields, water bodies and isolated trees.")
    ∷ (
      "wildfire",
      "Do not enter closed forest blocks. Report smoke to the range office immediately.",
    )
    ∷ (
      "tsunami",
      "Move inland and to higher ground. Do not return to the shore until the all-clear is issued.",
    )
    ∷ []

-- What `buildStateAlerts` makes, without the texts of the times.
pub record Alert : Type 0 where
  pub id : String
  pub auth : String
  pub sev : String
  pub urg : String
  pub cert : String
  pub haz : String
  pub event : String
  pub head : String
  pub area : String
  pub age : ℕ
  pub expires_in : ℕ
  pub inst : Option String

-- `sevFor(v)`: the first of 91, 75, 55 and 0 that is not above `v`.
unfoldable pub sev_for : ℕ → String
sev_for v =
    if leb 91 v
    then "Extreme"
    else if leb 75 v
    then "Severe"
    else if leb 55 v
    then "Moderate"
    else "Minor"

abbrev pub urgency : ℕ → String
urgency v = if leb 80 v then "Immediate" else if leb 60 v then "Expected" else "Future"

abbrev pub certainty : ℕ → String
certainty v = if leb 80 v then "Observed" else if leb 60 v then "Likely" else "Possible"

abbrev pub recency : ℕ → ℕ × ℕ
recency v =
    if leb 85 v
    then (2, 40)
    else if leb 70 v
    then (12, 110)
    else if leb 55 v
    then (40, 220)
    else (90, 420)

-- Digits of a number below ten, a hundred and a thousand.
abbrev pub digit : ℕ → String
digit n = or_else (get_elem? ("0" ∷ "1" ∷ "2" ∷ "3" ∷ "4" ∷ "5" ∷ "6" ∷ "7" ∷ "8" ∷ "9" ∷ []) n) ""

abbrev pub two_digits : ℕ → String
two_digits n = joined (digit (n / 10) ∷ digit (n % 10) ∷ [])

abbrev pub three_digits : ℕ → String
three_digits n = joined (digit (n / 100) ∷ two_digits (n % 100) ∷ [])

-- `c.risk[h] || 0`
abbrev pub risk_in : String → Cell → ℕ
risk_in h c = or_else (lookup h c.risk) 0

abbrev pub name_in : Cell → String
name_in c = c.name

abbrev pub authority : (name auth : String) → String
authority name auth =
    if str_eq auth "{SDMA}"
    then joined (name ∷ " State Disaster Management Authority" ∷ [])
    else auth

module _ (upper : String → String) where
  -- One of the alerts, for the authority and the event of its hazard. `upper` is `toUpperCase`.
  unfoldable pub alert_of :
      (sid : String)
      → Profile
      → List Cell
      → (i : ℕ) → (h : String) (v : ℕ) → (auth event : String) → Alert
  alert_of sid p cells i h v auth event =
      let top = map name_in (take 2 (highest_first (risk_in h) cells)) in
      let sev = sev_for v in
      record {
        id = joined (
            "CAP-"
            ∷ upper sid
            ∷ "-"
            ∷ two_digits (suc i)
            ∷ three_digits (zhash (joined (sid ∷ h ∷ [])) * 900 / 100000 + 100)
            ∷ []);
        auth = authority p.n auth;
        sev = sev;
        urg = urgency v;
        cert = certainty v;
        haz = h;
        event = event;
        head = alert_head h top p.n sev;
        area = joined (joined_by ", " top ∷ " — " ∷ p.n ∷ []);
        age = rounded 1 (lerp (recency v).0 (recency v).1 (share (joined (sid ∷ h ∷ "a" ∷ []))));
        expires_in = rounded 1 (lerp 4 24 (share (joined (sid ∷ h ∷ "e" ∷ []))));
        inst = lookup h alert_inst;
      }

  -- `none` where a hazard has no authority and the code throws.
  unfoldable pub alerts_of :
      (sid : String) → Profile → List Cell → (i : ℕ) → List (String × ℕ) → Option (List Alert)
  alerts_of sid p cells i [] = some []
  alerts_of sid p cells i ((h, v) ∷ rows) = do
    (auth, event) ← lookup h alert_auth
    rest ← alerts_of sid p cells (suc i) rows
    some (alert_of sid p cells i h v auth event ∷ rest)

  -- `order`
  abbrev pub order_of : List (String × ℕ) → List (String × ℕ)
  order_of live = take 4 (keep (λ (row : String × ℕ). leb 30 row.1) (by_score live))

  -- `buildStateAlerts(sid, cells)`; `live` are the state's scores now, `S.states[sid].hz`.
  unfoldable pub build_state_alerts :
      (sid : String) → Profile → List Cell → (live : List (String × ℕ)) → Option (List Alert)
  build_state_alerts sid p cells live = alerts_of sid p cells 0 (order_of live)
