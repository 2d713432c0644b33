-- ===== src/Feed/Push.antt =====
-- data.js, `pushNational`: an alert that is raised is in the feed, once, and the feed stays short.
use aapda_sync.Base.{
  ℕ, zero, suc, ◌≤◌, not, String, List, [], ◌∷◌, keep, length, take, length-take, length-keep, ◌-◌,
  str_eq, str_eq_refl, if◌then◌else◌, ◌≡◌, ◌∙◌, refl, arith,
}
use aapda_sync.Base.Sorts.{put, sort_on, IsAscending, sort_on-IsAscending, length-sort_on}
use aapda_sync.Feed.{shorten, Alert, Row, row_of, row_age, push_national}

-- How many rows carry an id.
abbrev pub count_id : String → List Row → ℕ
count_id id [] = 0
count_id id (r ∷ rs) = let rest = count_id id rs in if str_eq r.id id then suc rest else rest

count_id-put :
    (id : String) (r : Row) (rs : List Row) → count_id id (put row_age r rs) ≡ count_id id (r ∷ rs)
unfolding put
count_id-put id r [] = refl
count_id-put id r (s ∷ rs) = ground (arith, count_id-put id r rs)

count_id-sort_on : (id : String) (rs : List Row) → count_id id (sort_on row_age rs) ≡ count_id id rs
unfolding sort_on
count_id-sort_on id [] = refl
count_id-sort_on id (r ∷ rs) =
    ground (arith, count_id-put id r (sort_on row_age rs), count_id-sort_on id rs)

count_id-keep :
    (id : String) (rs : List Row) → count_id id (keep (λ (r : Row). not (str_eq r.id id)) rs) ≡ 0
count_id-keep id [] = refl
count_id-keep id (r ∷ rs) = ground (arith, count_id-keep id rs)

count_id-take : (id : String) (n : ℕ) (rs : List Row) → count_id id (take n rs) ≤ count_id id rs
count_id-take id zero rs = omega arith
count_id-take id (suc n) [] = omega arith
count_id-take id (suc n) (r ∷ rs) = ground (arith, count_id-take id n rs)

length-shorten : (n : ℕ) (rs : List Row) → length rs ≤ suc n → length (shorten n rs) ≤ n
unfolding shorten
length-shorten n rs h = ground (arith, length-take (length rs - 1) rs)

-- The first row stays, and no other row with its id comes in.
count_id-shorten :
    (n : ℕ) (r : Row) (rs : List Row)
    → count_id r.id rs ≡ 0
    → count_id r.id (shorten (suc n) (r ∷ rs)) ≡ 1
unfolding shorten
count_id-shorten n r [] h = ground (arith, str_eq_refl r.id)
count_id-shorten n r (s ∷ rs) h =
    let same : length (r ∷ s ∷ rs) - 1 ≡ suc (length rs) = omega arith in
    rw same (ground (arith, count_id-take r.id (length rs) (s ∷ rs), str_eq_refl r.id))

-- After an alert was raised on a feed of at most 60 rows, the feed is in order, holds at most 60
-- rows, and exactly one of them carries the alert's id, though an older one may have carried it
-- before.
pub push_national-once :
    (now : ℕ) (state state_name : String) (a : Alert) (feed : List Row)
    → length feed ≤ 60
    → IsAscending row_age (push_national now state state_name a feed)
      × (length (push_national now state state_name a feed) ≤ 60)
      × (count_id a.id (push_national now state state_name a feed) ≡ 1)
unfolding push_national
push_national-once now state state_name a feed h =
    let is_other = λ (r : Row). not (str_eq r.id a.id) in
    let others = keep is_other feed in
    let raised = row_of now state state_name a ∷ others in
    let short : length raised ≤ 61 = omega (arith, length-keep is_other feed) in
    (
      sort_on-IsAscending row_age (shorten 60 raised),
      omega (arith, length-sort_on row_age (shorten 60 raised), length-shorten 60 raised short),
      count_id-sort_on a.id (shorten 60 raised)
          ∙ count_id-shorten 59 (row_of now state state_name a) others (count_id-keep a.id feed),
    )
