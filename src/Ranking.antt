-- ===== src/Ranking.antt =====
-- frontend/standalone/src/data.js, the ranking of the zones: `mergeSort`, `cmp`, `priorityKey`, and the last
-- lines of `computePriorities`, which number the zones in the order of their priority.
pub mod Sort
mod Laws
pub mod Zones
pub mod Score
pub mod ScoreBounds
mod Tests
use Prim.Native.String.{compare as compare_text}
use Prim.Native.Nat.{Ordering}
use aapda_sync.Base.{
  ℕ, ◌+◌, suc, zero, Bool, true, false, not, Option, none, some, String, List, [], ◌∷◌,
  if◌then◌else◌, ltb, or_else, length,
}
use aapda_sync.Ranking.Sort.{Stats, merge_sort}

-- What the ranking and the relocation plan read of a zone: its score in millionths, the people that
-- are expected to be exposed and those to be moved, and the hours to the impact in tenths.
pub record Zone : Type 0 where
  pub cell_id : String
  pub id : String
  pub name : String
  pub priority_score : ℕ
  pub expected_exposed : ℕ
  pub people_to_move : ℕ
  pub time_to_impact_h : Option ℕ
  pub rank : ℕ

-- `a < b` of two texts.
abbrev pub text_before : String → String → Bool
text_before s t = elim (compare_text s t) [ Ordering.lt ↦ true | _ ↦ false ]

-- The answer of `cmp`, and one round of its loop: what the parts at one place decide, or else the
-- rest.
pub data Order : Type 0 where
  less : Order
  greater : Order
  same : Order

abbrev pub round : Bool → Bool → Order → Order
round true _ _ = less
round false true _ = greater
round false false rest = rest

-- `priorityKey(z)`. The first two parts are negative there: here they are the numbers themselves,
-- and `cmp` compares them the other way round. 1e9 hours stand for an unknown time.
pub record Key : Type 0 where
  pub score : ℕ
  pub exposed : ℕ
  pub time : ℕ
  pub cell : String

unfoldable pub priority_key : Zone → Key
priority_key z = record {
  score = z.priority_score;
  exposed = z.expected_exposed;
  time = or_else z.time_to_impact_h 10000000000;
  cell = z.cell_id;
}

-- `cmp(a, b)`, its loop unrolled over the four parts of a key.
unfoldable pub cmp : Key → Key → Order
cmp a b = round (ltb b.score a.score) (ltb a.score b.score) (
    round (ltb b.exposed a.exposed) (ltb a.exposed b.exposed) (
      round (ltb a.time b.time) (ltb b.time a.time)
        (round (text_before a.cell b.cell) (text_before b.cell a.cell) same)))

abbrev pub is_less : Order → Bool
is_less less = true
is_less greater = false
is_less same = false

-- `cmp(key(x), key(y)) < 0`
unfoldable pub zone_before : Zone → Zone → Bool
zone_before x y = is_less (cmp (priority_key x) (priority_key y))

-- `.map((z, i) => ({ ...z, rank: i + 1 }))`, from an index on.
unfoldable pub number_from : ℕ → List Zone → List Zone
number_from i [] = []
number_from i (z ∷ zs) = record z { rank = suc i } ∷ number_from (suc i) zs

-- The end of `computePriorities`: the scored zones, sorted and numbered, with fresh counters.
unfoldable pub rank_zones : List Zone → List Zone × Stats
rank_zones scored =
    let fresh : Stats = record { n = length scored; comparisons = 0; depth = 0 } in
    let sorted = merge_sort zone_before scored fresh in (number_from 0 sorted.0, sorted.1)
