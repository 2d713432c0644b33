-- ===== src/Feed/Honest.antt =====
-- data.js, `refreshNationalFeed`: the ages that the feed shows.
use aapda_sync.Base.{ℕ, ◌+◌, ◌-◌, ◌<◌, ◌≢◌, Option, String, List, keep, map, ◌≡◌, arith}
use aapda_sync.Base.Sorts.{IsAscending, sort_on-IsAscending}
use aapda_sync.Feed.{Alert, Row, row_age, age_row, in_force, rotate, refresh_national_feed}

-- The age of a row at a time: what it shows, and what has passed since it was stamped.
abbrev pub true_age : ℕ → Row → ℕ
true_age now r = r.age + (now - r.stamped_at)

-- A row that was stamped is less than a minute behind after a refresh, and loses nothing of its age,
-- however late the refresh comes.
pub age_row-true_age :
    (now : ℕ) (r : Row)
    → r.stamped_at ≢ 0
    → (true_age now (age_row now r) ≡ true_age now r)
      × (true_age now (age_row now r) < (age_row now r).age + 60000)
unfolding age_row
age_row-true_age now r h = ground arith

-- The feed is in order after a refresh, the youngest first.
pub refresh_national_feed-IsAscending :
    (top_alert : String → Option Alert) (name_of : String → String) (now : ℕ) (ids : List String)
    (cursor : ℕ) (feed : List Row)
    → IsAscending row_age (refresh_national_feed top_alert name_of now ids cursor feed).0
unfolding refresh_national_feed
refresh_national_feed-IsAscending top_alert name_of now ids cursor feed =
    sort_on-IsAscending row_age
      (rotate top_alert name_of now ids cursor (keep in_force (map (age_row now) feed)))
