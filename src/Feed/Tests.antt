-- ===== src/Feed/Tests.antt =====
-- A feed of two rows, refreshed after two minutes, and an alert raised twice.
use aapda_sync.Base.{ℕ, ◌+◌, ◌<◌, Option, none, some, String, List, [], ◌∷◌, ◌≡◌, arith}
use aapda_sync.Base.Sorts.{IsAscending}
use aapda_sync.Feed.{Alert, Row, row_of, row_age, age_row, refresh_national_feed}
use aapda_sync.Feed.Honest.{true_age, age_row-true_age, refresh_national_feed-IsAscending}

abbrev alert : Alert
alert = record { id = "A-1"; sev = "Severe"; head = "Flood"; auth = "CWC"; age = 0; expires_in = 6 }

abbrev row : Row
row = row_of 1000 "ut" "Uttarakhand" alert

abbrev older : Row
older = record row { id = "A-2"; age = 500000 }

age_row-true_age_example :
    (true_age 121000 (age_row 121000 row) ≡ true_age 121000 row)
    × (true_age 121000 (age_row 121000 row) < (age_row 121000 row).age + 60000)
age_row-true_age_example = age_row-true_age 121000 row (λ e. absurd (omega arith))

refresh_national_feed-IsAscending_example :
    IsAscending row_age
      (refresh_national_feed
        (λ s. some alert)
        (λ s. s)
        121000
        ("ut" ∷ "as" ∷ [])
        1
        (older ∷ row ∷ [])).0
refresh_national_feed-IsAscending_example =
    refresh_national_feed-IsAscending (λ s. some alert) (λ s. s) 121000 ("ut" ∷ "as" ∷ []) 1
      (older ∷ row ∷ [])

abbrev states : List (String × Option ℕ)
states = ("ut", some 70) ∷ ("rj", none) ∷ ("as", some 81) ∷ []
