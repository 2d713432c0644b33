-- ===== src/Connection/Steps.antt =====
-- live.js: every event as a step of one relation, and what holds after any sequence of them.
use mathlib.Core.Path.{subst}
use aapda_sync.Base.{
  ℕ, suc, ◌≤◌, ◌<◌, Bool, true, false, Option, none, some, String, List, ◌≡◌, refl, ap, ◌∙◌, arith,
  if◌then◌else◌,
}
use aapda_sync.Connection.{
  State, Live, Frame, Cell, live_set_state, live_schedule_reconnect, live_connect, on_open,
  on_message, on_close, live_apply,
}
use aapda_sync.Connection.Backoff.{delay_le}

-- The events that reach the client: the page connects, the timer of a reconnection fires, the
-- socket opens, gives a message or closes, in any order. `Math.random()` is `n / d`, below 1.
pub data Step : Live → Live → Type 0 where
  connects :
      {l : Live} (now : ℕ) (url : Option String) (throws : Bool) (n d : ℕ)
      → n < d
      → Step l (live_connect now url throws n d l)
  opens : {l : Live} → Step l (on_open l).0
  gives : {l : Live} (now : ℕ) (f : Frame) (cells : List Cell) → Step l (on_message now f l cells).0
  closes : {l : Live} (n d : ℕ) → n < d → Step l (on_close n d l)

pub data Reach (a : Live) : Live → Type 0 where
  here : Reach a a
  next : {b c : Live} → Reach a b → Step b c → Reach a c

-- How many attempts have failed since the socket last opened, after one event more: one fails where
-- the constructor of the socket throws, and where the socket closes.
abbrev pub failed_next : {a b : Live} → Step a b → ℕ → ℕ
failed_next (Step.connects now none throws n d h) k = k
failed_next (Step.connects now (some url) throws n d h) k = if throws then suc k else k
failed_next Step.opens k = 0
failed_next (Step.gives now f cells) k = k
failed_next (Step.closes n d h) k = suc k

abbrev pub failed_in_a_row : {a b : Live} → Reach a b → ℕ
failed_in_a_row Reach.here = 0
failed_in_a_row (Reach.next r s) = failed_next s (failed_in_a_row r)

-- `LIVE` as the page begins.
abbrev pub start : Live
start = record {
  state = State.connecting;
  attempts = 0;
  last_message_at = none;
  last_computed_at = none;
  latency_ms = none;
  received = 0;
  url = none;
  timer = none;
  heartbeat = false;
}

abbrev pub Shown : State → ℕ → Type 0
Shown State.offline attempts = 7 ≤ attempts
Shown State.reconnecting attempts = (1 ≤ attempts) × (attempts ≤ 6)
Shown State.connecting attempts = Unit
Shown State.live attempts = Unit
Shown State.simulated attempts = Unit

abbrev pub Soon : Option ℕ → Type 0
Soon none = Unit
Soon (some delay) = delay ≤ 30000

pub record IsHonest (l : Live) : Type 0 where
  pub shown : Shown l.state l.attempts
  pub soon : Soon l.timer

schedule-IsHonest : (n d : ℕ) (l : Live) → n < d → IsHonest (live_schedule_reconnect n d l)
unfolding live_schedule_reconnect live_set_state
schedule-IsHonest n d l h = record {
  shown = ground arith;
  soon = delay_le (suc l.attempts) n d (omega arith);
}

connect-IsHonest :
    (now : ℕ) (url : Option String) (throws : Bool) (n d : ℕ) (l : Live)
    → n < d
    → IsHonest l
    → IsHonest (live_connect now url throws n d l)
unfolding live_connect live_set_state
connect-IsHonest now none throws n d l h k = record { shown = tt; soon = k.soon }
connect-IsHonest now (some url) true n d l h k = schedule-IsHonest n d _ h
connect-IsHonest now (some url) false n d l h k = record { shown = k.shown; soon = k.soon }

message-IsHonest :
    (now : ℕ) (f : Frame) (l : Live) (cells : List Cell)
    → IsHonest l
    → IsHonest (on_message now f l cells).0
unfolding on_message live_set_state live_apply
message-IsHonest now Frame.broken l cells k = record { shown = k.shown; soon = k.soon }
message-IsHonest now (Frame.risk_update at latency hazard scores) l cells k = record {
  shown = tt;
  soon = k.soon;
}
message-IsHonest now Frame.other l cells k = record { shown = tt; soon = k.soon }

Step-IsHonest : {a b : Live} → Step a b → IsHonest a → IsHonest b
unfolding on_open on_close live_set_state
Step-IsHonest (Step.connects {l} now url throws n d h) k = connect-IsHonest now url throws n d l h k
Step-IsHonest (Step.opens {l}) k = record { shown = tt; soon = k.soon }
Step-IsHonest (Step.gives {l} now f cells) k = message-IsHonest now f l cells k
Step-IsHonest (Step.closes {l} n d h) k = schedule-IsHonest n d _ h

Reach-IsHonest : {b : Live} → Reach start b → IsHonest b
Reach-IsHonest Reach.here = record { shown = tt; soon = tt }
Reach-IsHonest (Reach.next r s) = Step-IsHonest s (Reach-IsHonest r)

attempts-connect :
    (now : ℕ) (url : String) (throws : Bool) (n d : ℕ) (l : Live)
    → (live_connect now (some url) throws n d l).attempts
      ≡ (if throws then suc l.attempts else l.attempts)
unfolding live_connect live_schedule_reconnect live_set_state
attempts-connect now url true n d l = refl
attempts-connect now url false n d l = refl

attempts-message :
    (now : ℕ) (f : Frame) (l : Live) (cells : List Cell)
    → (on_message now f l cells).0.attempts ≡ l.attempts
unfolding on_message live_set_state live_apply
attempts-message now Frame.broken l cells = refl
attempts-message now (Frame.risk_update at latency hazard scores) l cells = refl
attempts-message now Frame.other l cells = refl

attempts-Step : {a b : Live} (s : Step a b) (k : ℕ) → a.attempts ≡ k → b.attempts ≡ failed_next s k
unfolding live_connect on_open on_close live_schedule_reconnect live_set_state
attempts-Step (Step.connects now none throws n d h) k e = e
attempts-Step (Step.connects {l} now (some url) throws n d h) k e =
    attempts-connect now url throws n d l ∙ ap (λ m. if throws then suc m else m) e
attempts-Step Step.opens k e = refl
attempts-Step (Step.gives {l} now f cells) k e = attempts-message now f l cells ∙ e
attempts-Step (Step.closes n d h) k e = ap suc e

attempts-Reach : {b : Live} (r : Reach start b) → b.attempts ≡ failed_in_a_row r
attempts-Reach Reach.here = refl
attempts-Reach (Reach.next r s) = attempts-Step s (failed_in_a_row r) (attempts-Reach r)

-- Whatever happens on the connection, in whatever order: "offline" is shown only after seven or more
-- attempts that failed since the socket last opened, "reconnecting" only after one to six; and a
-- reconnection that is scheduled comes within thirty seconds.
pub Reach-shown : (b : Live) (r : Reach start b) → Shown b.state (failed_in_a_row r) × Soon b.timer
Reach-shown b r =
    let h = Reach-IsHonest r in (subst (Shown b.state) (attempts-Reach r) h.shown, h.soon)
