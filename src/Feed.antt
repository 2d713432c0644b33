-- ===== src/Feed.antt =====
-- The national feed of alerts: frontend/standalone/src/data.js `buildNationalFeed`,
-- `refreshNationalFeed`, `pushNational` and `nationalPeak`. Ages are counted in milliseconds. The
-- alerts that `buildStateAlerts` derives for a state are an argument: the first of them, if there is
-- one.
pub mod Honest
pub mod Push
pub mod Highest
mod Tests
use aapda_sync.Base.{
  ℕ, zero, suc, ◌+◌, ◌-◌, ◌*◌, ◌%◌, Bool, true, false, not, Option, none, some, String, List, [],
  ◌∷◌, ◌++◌, length, take, get_elem?, keep, any, map, if◌then◌else◌, ltb, leb, nat_eq, str_eq,
  or_else,
}
use aapda_sync.Base.Sorts.{sort_on}

pub record Alert : Type 0 where
  pub id : String
  pub sev : String
  pub head : String
  pub auth : String
  pub age : ℕ
  pub expires_in : ℕ

-- A row of `S.national`.
pub record Row : Type 0 where
  pub id : String
  pub sev : String
  pub head : String
  pub auth : String
  pub age : ℕ
  pub expires_in : ℕ
  pub state : String
  pub state_name : String
  pub stamped_at : ℕ

abbrev pub row_of : ℕ → (state state_name : String) → Alert → Row
row_of now state state_name a = record {
  id = a.id;
  sev = a.sev;
  head = a.head;
  auth = a.auth;
  age = a.age;
  expires_in = a.expires_in;
  state = state;
  state_name = state_name;
  stamped_at = now;
}

abbrev pub row_age : Row → ℕ
row_age r = r.age

module _ (top_alert : String → Option Alert) (name_of : String → String) where
  unfoldable pub rows_of : ℕ → List String → List Row
  rows_of now [] = []
  rows_of now (id ∷ ids) =
      let rest = rows_of now ids in
      elim (top_alert id) [ none ↦ rest | some a ↦ row_of now id (name_of id) a ∷ rest ]

  -- `buildNationalFeed()`
  unfoldable pub build_national_feed : ℕ → List String → List Row
  build_national_feed now ids = sort_on row_age (rows_of now ids)

-- `row.stampedAt || now`
abbrev pub stamp_or : ℕ → ℕ → ℕ
stamp_or now stamped = if nat_eq stamped 0 then now else stamped

-- One row of the first loop of `refreshNationalFeed`.
unfoldable pub age_row : ℕ → Row → Row
age_row now r =
    let elapsed = now - stamp_or now r.stamped_at in
    if leb 60000 elapsed then record r { age = r.age + elapsed; stamped_at = now } else r

-- `r.age < r.expires_in * 60 + 240`, in minutes there.
abbrev pub in_force : Row → Bool
in_force r = ltb r.age ((r.expires_in * 60 + 240) * 60000)

-- Where the state has a row, the first one is replaced by a younger alert; otherwise the new row
-- goes to the end.
unfoldable pub put_row : Row → List Row → List Row
put_row row [] = row ∷ []
put_row row (r ∷ rs) =
    let rest = put_row row rs in
    if str_eq r.state row.state then (if ltb row.age r.age then row ∷ rs else r ∷ rs) else r ∷ rest

-- The rotation: the state under the cursor, and the cursor's next place.
unfoldable pub rotate :
    (String → Option Alert) → (String → String) → ℕ → List String → ℕ → List Row → List Row
rotate top_alert name_of now ids cursor feed = elim (get_elem? ids (cursor % length ids)) [
  | none ↦ feed
  | some id ↦ elim (top_alert id) [
    | none ↦ feed
    | some a ↦ put_row (row_of now id (name_of id) a) feed
  ]
]

unfoldable pub next_cursor : List String → ℕ → ℕ
next_cursor [] cursor = cursor
next_cursor (id ∷ ids) cursor = (cursor + 1) % length (id ∷ ids)

-- `refreshNationalFeed()`
unfoldable pub refresh_national_feed :
    (String → Option Alert) → (String → String) → ℕ → List String → ℕ → List Row → List Row × ℕ
refresh_national_feed top_alert name_of now ids cursor feed =
    let aged = map (age_row now) feed in
    let live = keep in_force aged in
    (sort_on row_age (rotate top_alert name_of now ids cursor live), next_cursor ids cursor)

-- `if (S.national.length > n) S.national.pop()`
unfoldable pub shorten : ℕ → List Row → List Row
shorten n rows = if ltb n (length rows) then take (length rows - 1) rows else rows

-- `pushNational(alert, stateId)`
unfoldable pub push_national : ℕ → (state state_name : String) → Alert → List Row → List Row
push_national now state state_name a feed =
    let others = keep (λ (r : Row). not (str_eq r.id a.id)) feed in
    let raised = row_of now state state_name a ∷ others in sort_on row_age (shorten 60 raised)

-- The states with their value for the hazard in view, null where they are not affected.
pub record Peak : Type 0 where
  pub id : String
  pub v : ℕ

-- One round of `nationalPeak`: only a higher value replaces the best one.
unfoldable pub better : Option Peak → String → Option ℕ → Option Peak
better best id none = best
better none id (some v) = some (record { id = id; v = v })
better (some best) id (some v) =
    if ltb best.v v then some (record { id = id; v = v }) else some best

unfoldable pub national_peak : Option Peak → List (String × Option ℕ) → Option Peak
national_peak best [] = best
national_peak best ((id, v) ∷ states) = national_peak (better best id v) states
