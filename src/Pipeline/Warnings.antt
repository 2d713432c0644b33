-- ===== src/Pipeline/Warnings.antt =====
-- boot.js, `drawEvent` and the EVENTS of roads, sources and official warnings. What is drawn at random is
-- an argument: a place in a list for `pick`, a number or its text for `rnd`.

use aapda_sync.Base.{
  ℕ, ◌-◌, max, Bool, not, ◌&&◌, Option, none, some, String, List, [], ◌∷◌, map, length, take, keep,
  lookup, get_elem?, or_else, if◌then◌else◌, ltb, leb, str_eq, joined,
}
use aapda_sync.Base.Highest.{highest_first}
use aapda_sync.Feed
use aapda_sync.Feed.{Row, push_national}
use aapda_sync.States.{Profile}
use aapda_sync.States.Cells.{Cell}
use aapda_sync.States.Alerts.{Alert, alert_auth, alert_inst, authority, name_in, risk_in, sev_for}
use aapda_sync.States.Headlines.{alert_head, joined_by}
use aapda_sync.States.Registers.{Road}

-- `drawEvent()`: the event whose share of the weights `r` falls into; `r` is drawn from 0 to `total`,
-- in the units of the weights, and is not a whole number, so `r` counts as the next whole number above.
unfoldable pub drawn : List (ℕ × String) → (r : ℕ) → Option String
drawn [] r = none
drawn ((w, e) ∷ events) r = let rest = drawn events (r - w) in if leb r w then some e else rest

-- `states.filter(x => x !== was)`
abbrev pub road_states : List String
road_states = "open" ∷ "slow" ∷ "partially_blocked" ∷ "blocked" ∷ "flooded" ∷ "landslide" ∷ []

abbrev pub road_reasons : List (String × String)
road_reasons =
    ("open", "Cleared and confirmed passable")
    ∷ ("slow", "Surface water, heavy traffic")
    ∷ ("partially_blocked", "Single lane past debris")
    ∷ ("blocked", "Slope failure, no access")
    ∷ ("flooded", "Water over carriageway")
    ∷ ("landslide", "Debris across both lanes")
    ∷ []

abbrev pub other_states : (was : String) → List String
other_states was = keep (λ (x : String). not (str_eq x was)) road_states

-- A road that was picked changes its state to the one picked among the others, `none` where the pick is
-- none of them.
unfoldable pub road_event : (pick : ℕ) (officer : String) → Road → Option Road
road_event pick officer r = elim (get_elem? (other_states r.state) pick) [
  | none ↦ none
  | some state ↦ some (record r {
    state = state;
    reason = or_else (lookup state road_reasons) "undefined";
    age = 0;
    by = officer;
  })
]

pub record Source : Type 0 where
  pub key : String
  pub status : String
  pub age_seconds : ℕ
  pub quality_score : Option ℕ

-- A source whose status is not measured degrades, recovers or goes on. `unlucky` is
-- `Math.random() < 0.4`, `quality` in hundredths and `age` what is drawn.
unfoldable pub source_event : (unlucky : Bool) (quality age : ℕ) → Source → Source
source_event unlucky quality age src =
    if str_eq src.status "live" && unlucky
    then record src { status = "stale"; age_seconds = 7200 }
    else if str_eq src.status "stale"
    then record src { status = "live"; age_seconds = 60; quality_score = some quality }
    else record src { age_seconds = max 30 age }

-- `Object.keys(liveHz).filter(h => liveHz[h] >= 45)`, with the scores.
abbrev pub warnable : List (String × ℕ) → List (String × ℕ)
warnable live = keep (λ (row : String × ℕ). leb 45 row.1) live

-- The alert that is issued for the hazard `h`, which scores `v`.
unfoldable pub warning_of :
    (id : String) → Profile → List Cell → (h : String) (v : ℕ) → (auth event : String) → Alert
warning_of id p cells h v auth event =
    let top = map name_in (take 2 (highest_first (risk_in h) cells)) in
    let sev = sev_for v in
    record {
      id = id;
      auth = authority p.n auth;
      sev = sev;
      urg = "Immediate";
      cert = "Observed";
      haz = h;
      event = event;
      head = alert_head h top p.n sev;
      area = joined (joined_by ", " top ∷ " — " ∷ p.n ∷ []);
      age = 0;
      expires_in = 6;
      inst = lookup h alert_inst;
    }

-- `if (xs.length > n) xs.pop()`
abbrev pub pop_beyond {ℓ} : {A : Type ℓ} → ℕ → List A → List A
pop_beyond n xs = if ltb n (length xs) then take (length xs - 1) xs else xs

-- The alerts of the state in focus, and the national feed.
pub record Warnings : Type 0 where
  pub alerts : List Alert
  pub national : List Row

abbrev pub row_alert : Alert → Feed.Alert
row_alert a = record {
  id = a.id;
  sev = a.sev;
  head = a.head;
  auth = a.auth;
  age = a.age;
  expires_in = a.expires_in;
}

-- `S.alerts.unshift(a); if (S.alerts.length > 10) S.alerts.pop(); pushNational(a, S.focus)`
unfoldable pub issue : (now : ℕ) (focus state_name : String) → Alert → Warnings → Warnings
issue now focus state_name a w = record {
  alerts = pop_beyond 10 (a ∷ w.alerts);
  national = push_national now focus state_name (row_alert a) w.national;
}

abbrev pub issued :
    (now : ℕ) (focus state_name id : String)
    → Profile
    → List Cell
    → (h : String) (v : ℕ) → Option (String × String)
    → Warnings
    → Option Warnings
issued now focus state_name id p cells h v none w = none
issued now focus state_name id p cells h v (some auth) w =
    some (issue now focus state_name (warning_of id p cells h v auth.0 auth.1) w)

abbrev pub warned :
    (now : ℕ) (focus state_name id : String)
    → Profile
    → List Cell
    → Option (String × ℕ)
    → Warnings
    → Option Warnings
warned now focus state_name id p cells none w = some w
warned now focus state_name id p cells (some row) w =
    issued now focus state_name id p cells row.0 row.1 (lookup row.0 alert_auth) w

-- The event of an official warning, for the hazard that was picked; nothing happens where none can be
-- warned of. `none` is a hazard without an authority, where the code throws.
unfoldable pub warning_event :
    (now : ℕ) (focus state_name id : String)
    → Profile
    → List Cell
    → (live : List (String × ℕ)) (pick : ℕ) → Warnings
    → Option Warnings
warning_event now focus state_name id p cells live pick w =
    warned now focus state_name id p cells (get_elem? (warnable live) pick) w
