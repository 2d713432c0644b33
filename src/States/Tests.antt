-- ===== src/States/Tests.antt =====
-- Bihar in July, at six in the evening, on a map without distances.
use aapda_sync.Base.{map, true, none, some, String, List, [], ◌≡◌, refl, length, All, lookup}
use aapda_sync.Base.Fractions.{Fraction, frac}
use aapda_sync.States.Hash.{hashed, zhash}
use aapda_sync.States.Season.{Clock}
use aapda_sync.States.Cells.{build_state_cells}
use aapda_sync.States.Alerts.{Alert, order_of, build_state_alerts}
use aapda_sync.States.Told.{told, due}
use aapda_sync.States.Load.{Loaded, Store, has_hazard, load_profile}
use aapda_sync.States.Profiles.{state_profile}
use aapda_sync.States.Profiles.FromUt.{bihar, uttarakhand}
use aapda_sync.States.Grid.{IsScored, distinct, ids_of, build_state_cells-IsScored}
use aapda_sync.States.Warned.{MostSevere, build_state_alerts-MostSevere}
use aapda_sync.States.Opened.{Unjudged, load_profile-in_view, load_profile-Unjudged}
use aapda_sync.States.Chamoli.{chamoli}
use aapda_sync.States.Chamoli.Placed.{is_placed, load_profile-is_placed}

hash_of_a : zhash "a" ≡ 2220
unfolding zhash hashed
hash_of_a = refl

abbrev flat : Fraction → Fraction → Fraction
flat x y = frac 0 1

abbrev same : String → String
same s = s

abbrev july : Clock
july = record { month = 7; hour = 18 }

abbrev nothing : Loaded
nothing = record {
  cells = [];
  shelters = [];
  hospitals = [];
  alerts = [];
  roads = [];
  reports = [];
}

abbrev at_start : Store
at_start = record { focus = "ut"; hazard = "flood"; loaded = nothing }

-- The hazard in view is none of Bihar's.
abbrev after_cyclone : Store
after_cyclone = record { focus = "or"; hazard = "cyclone"; loaded = nothing }

in_profile : state_profile "br" ≡ some bihar
unfolding lookup
in_profile = refl

build_state_cells-IsScored_example :
    (length (build_state_cells flat "br" (state_profile "br") july) ≡ 25)
    × (distinct (ids_of (build_state_cells flat "br" (state_profile "br") july)) ≡ true)
    × All (IsScored bihar) (build_state_cells flat "br" (state_profile "br") july)
build_state_cells-IsScored_example = build_state_cells-IsScored flat "br" bihar july in_profile

build_state_alerts-MostSevere_example :
    (alerts : List Alert) × (build_state_alerts same "br" bihar [] bihar.hz ≡ some alerts)
    × MostSevere bihar.hz alerts
unfolding lookup
build_state_alerts-MostSevere_example =
    build_state_alerts-MostSevere same "br" bihar [] bihar.hz refl

load_profile-in_view_example :
    (s' : Store) × (load_profile flat same nothing "br" bihar july bihar.hz none at_start ≡ some s')
    × (s'.focus ≡ "br")
    × (has_hazard s'.hazard s'.loaded.cells ≡ true)
    × (map told s'.loaded.alerts ≡ map due (order_of same bihar.hz))
    × MostSevere bihar.hz s'.loaded.alerts
unfolding lookup
load_profile-in_view_example =
    load_profile-in_view flat same nothing "br" bihar july bihar.hz none at_start in_profile refl
      refl

load_profile-Unjudged_example :
    (s' : Store) × (load_profile flat same nothing "br" bihar july bihar.hz none after_cyclone
      ≡ some s')
    × (s'.hazard ≡ "flood")
    × (has_hazard "flood" s'.loaded.cells ≡ true)
    × Unjudged s'.loaded.shelters
unfolding lookup
load_profile-Unjudged_example =
    load_profile-Unjudged flat same nothing "br" bihar july bihar.hz none after_cyclone in_profile
      refl refl refl

load_profile-is_placed_example :
    (s' : Store) × (load_profile flat same
        (chamoli "cyclone")
        "ut"
        uttarakhand
        july
        []
        (some 80)
        after_cyclone
      ≡ some s')
    × (s'.focus ≡ "ut")
    × (has_hazard s'.hazard s'.loaded.cells ≡ true)
    × (is_placed s'.loaded ≡ true)
unfolding lookup
load_profile-is_placed_example =
    load_profile-is_placed flat same uttarakhand july [] (some 80) after_cyclone refl refl
