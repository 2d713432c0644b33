-- ===== src/Connection.antt =====
-- The live connection: frontend/standalone/src/live.js, `LIVE`, `liveConnect` with the handlers of
-- its socket, `liveScheduleReconnect`, `liveSetState`, `liveAge`, and of `liveApply` the update of the
-- risks. The socket is the browser's: whether its constructor throws, and which of its events come
-- when, are arguments.
pub mod Backoff
pub mod Steps
mod Tests
use aapda_sync.Base.{
  ℕ, suc, ◌+◌, ◌-◌, ◌*◌, ◌/◌, ◌^◌, ◌≤◌, ◌<◌, min, Bool, true, false, Option, none, some, String,
  List, [], ◌∷◌, map, if◌then◌else◌, ltb, str_eq, or_else, find, lookup, insert,
}
use aapda_sync.Base.Int.{ℤ}

pub data State : Type 0 where
  connecting live reconnecting offline simulated : State

pub record Live : Type 0 where
  pub state : State
  pub attempts : ℕ
  pub last_message_at : Option ℕ
  pub last_computed_at : Option ℕ
  pub latency_ms : Option ℕ
  pub received : ℕ
  pub url : Option String
  pub timer : Option ℕ
  pub heartbeat : Bool

abbrev pub backoff_base_ms : ℕ
backoff_base_ms = 500

abbrev pub backoff_max_ms : ℕ
backoff_max_ms = 30000

-- `liveSetState(state)`, its toasts left out.
unfoldable pub live_set_state : State → Live → Live
live_set_state state l = record l { state = state }

-- The ceiling of the delay.
unfoldable pub ceiling : ℕ → ℕ
ceiling attempts = min (backoff_base_ms * 2 ^ attempts) backoff_max_ms

-- `liveScheduleReconnect()`, where `Math.random()` is `n / d`. A new timer replaces the old one.
unfoldable pub live_schedule_reconnect : (n d : ℕ) → Live → Live
live_schedule_reconnect n d l =
    let attempts = suc l.attempts in
    let state = if ltb 6 attempts then State.offline else State.reconnecting in
    record (live_set_state state (record l { attempts = attempts })) {
      timer = some (ceiling attempts * n / d);
    }

-- `liveConnect(url)`: `throws` says whether the constructor of the socket does.
unfoldable pub live_connect :
    (now : ℕ) (url : Option String) (throws : Bool) (n d : ℕ) → Live → Live
live_connect now none throws n d l =
    live_set_state State.simulated
      (record l { url = none; last_computed_at = some (or_else l.last_computed_at now) })
live_connect now (some url) throws n d l =
    let l' = record l {
      url = some url;
      last_computed_at = some (or_else l.last_computed_at now);
    } in
    if throws then live_schedule_reconnect n d l' else l'

-- `onopen`; and whether it asks for a new picture, `liveResync()`.
unfoldable pub on_open : Live → Live × Bool
on_open l = (
  record (live_set_state State.live (record l { attempts = 0 })) { heartbeat = true },
  ltb 0 l.received,
)

-- A risk of `risk_update`: a cell and its score.
pub record Score : Type 0 where
  pub cell_id : String
  pub score : ℤ

-- The frames that arrive: `broken` is text that is no JSON. Of the others only the update of risks
-- changes what is modelled here.
pub data Frame : Type 0 where
  broken : Frame
  risk_update : (computed_at latency_ms : Option ℕ) (hazard : String) (cells : List Score) → Frame
  other : Frame

-- A cell of the grid, with its risks by hazard.
pub record Cell : Type 0 where
  pub cell_id : String
  pub risk : List (String × ℤ)

-- `cell.risk[p.hazard] = c.score` on the first cell with that id; nothing where there is none.
unfoldable pub set_risk : String → Score → List Cell → List Cell
set_risk hazard c [] = []
set_risk hazard c (x ∷ xs) =
    let rest = set_risk hazard c xs in
    if str_eq x.cell_id c.cell_id
    then record x { risk = insert hazard c.score x.risk } ∷ xs
    else x ∷ rest

unfoldable pub set_risks : String → List Score → List Cell → List Cell
set_risks hazard [] cells = cells
set_risks hazard (c ∷ cs) cells = set_risks hazard cs (set_risk hazard c cells)

-- `liveApply(frame)`
unfoldable pub live_apply : ℕ → Frame → Live → List Cell → Live × List Cell
live_apply now Frame.broken l cells = (l, cells)
live_apply now (Frame.risk_update at latency hazard scores) l cells = (
  record l { last_computed_at = some (or_else at now); latency_ms = latency },
  set_risks hazard scores cells,
)
live_apply now Frame.other l cells = (l, cells)

-- `onmessage`: a text that is no JSON counts as received, but changes the state no more.
unfoldable pub on_message : ℕ → Frame → Live → List Cell → Live × List Cell
on_message now Frame.broken l cells =
    (record l { received = suc l.received; last_message_at = some now }, cells)
on_message now (Frame.risk_update at latency hazard scores) l cells =
    let out =
      live_apply now (Frame.risk_update at latency hazard scores)
        (record l { received = suc l.received; last_message_at = some now }) cells in
    (live_set_state State.live out.0, out.1)
on_message now Frame.other l cells = (
  live_set_state State.live (record l { received = suc l.received; last_message_at = some now }),
  cells,
)

-- `onclose`
unfoldable pub on_close : (n d : ℕ) → Live → Live
on_close n d l = live_schedule_reconnect n d (record l { heartbeat = false })

-- `liveAge()`
unfoldable pub live_age : ℕ → Live → Option ℕ
live_age now l = elim l.last_computed_at [
  | some at ↦ some (now - at)
  | none ↦ elim l.last_message_at [ some at ↦ some (now - at) | none ↦ none ]
]
