-- ===== src/Reports/Ids.antt =====
-- actions.js, `nextReportId`: the loop ends, at an id that no report has.
use aapda_sync.Base.{
  ℕ, zero, suc, ◌+◌, ◌≤◌, true, false, List, [], ◌∷◌, length, if◌then◌else◌, leb, ◌≡◌, refl, arith,
}
use aapda_sync.Reports.{Report, cr, is_used, next_free, next_report_id}

-- How many reports have a number from `n` on.
count_from : ℕ → List Report → ℕ
count_from n [] = 0
count_from n (r ∷ rs) = let rest = count_from n rs in if leb n r.id.number then suc rest else rest

count_from-length : (n : ℕ) (rs : List Report) → count_from n rs ≤ length rs
unfolding count_from
count_from-length n [] = omega arith
count_from-length n (r ∷ rs) = ground (arith, count_from-length n rs)

count_from_mono : (n : ℕ) (rs : List Report) → count_from (suc n) rs ≤ count_from n rs
unfolding count_from
count_from_mono n [] = omega arith
count_from_mono n (r ∷ rs) = ground (arith, count_from_mono n rs)

-- An id that is used is behind the next number no more.
count_from-used :
    (n : ℕ) (rs : List Report)
    → is_used rs (cr n) ≡ true
    → suc (count_from (suc n) rs) ≤ count_from n rs
unfolding count_from is_used
count_from-used n [] h = absurd (ground arith)
count_from-used n (r ∷ rs) h = ground (arith, count_from-used n rs, count_from_mono n rs)

next_free-unused :
    (fuel : ℕ) (rs : List Report) (n : ℕ)
    → count_from n rs ≤ fuel
    → is_used rs (cr (next_free fuel rs n)) ≡ false
unfolding next_free
next_free-unused zero rs n h = ground (arith, count_from-used n rs)
next_free-unused (suc fuel) rs n h =
    ground (arith, count_from-used n rs, next_free-unused fuel rs (suc n))

next_free-le : (fuel : ℕ) (rs : List Report) (n : ℕ) → n ≤ next_free fuel rs n
unfolding next_free
next_free-le zero rs n = omega arith
next_free-le (suc fuel) rs n = ground (arith, next_free-le fuel rs (suc n))

-- The loop of `nextReportId` ends: the id that is found is 'CR-' with a number, belongs to no report of
-- the queue, whether its id has the letters of a state or not, and its number is at least 40230 and
-- the number of reports.
pub next_report_id-unused :
    (rs : List Report)
    → (is_used rs (next_report_id rs) ≡ false)
      × ((next_report_id rs).state ≡ "")
      × (40230 + length rs ≤ (next_report_id rs).number)
unfolding next_report_id
next_report_id-unused rs = (
  next_free-unused (length rs) rs (40230 + length rs) (count_from-length (40230 + length rs) rs),
  refl,
  next_free-le (length rs) rs (40230 + length rs),
)
