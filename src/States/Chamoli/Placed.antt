-- ===== src/States/Chamoli/Placed.antt =====
-- The register of Chamoli in the store of `loadState`.
use aapda_sync.Base.{
  ℕ, Bool, true, ◌&&◌, Option, none, some, String, List, [], ◌∷◌, ◌≡◌, refl, any, lookup, str_eq,
  leb, ap, ◌∙◌, sym,
}
use aapda_sync.Base.Fractions.{Fraction}
use aapda_sync.Shelters.{Shelter, mk_shelter}
use aapda_sync.States.{Profile}
use aapda_sync.States.Season.{Clock}
use aapda_sync.States.Cells.{Cell}
use aapda_sync.States.Registers.{Road, Report}
use aapda_sync.States.Load.{Loaded, Store, load_profile, ut_active, with_hazard, has_hazard}
use aapda_sync.States.Profiles.{state_profile}
use aapda_sync.States.Opened.{with_hazard-has, with_hazard-kept}
use aapda_sync.States.Chamoli.{chamoli}

abbrev pub is_zone : List Cell → String → Bool
is_zone cells id = any (λ (c : Cell). str_eq c.id id) cells

-- What stands in a zone stands in one that was surveyed.
abbrev pub shelters_in : List Cell → List Shelter → Bool
shelters_in cells [] = true
shelters_in cells (s ∷ ss) =
    is_zone cells s.zone && (leb s.current_occupancy s.max_capacity && shelters_in cells ss)

abbrev pub roads_in : List Cell → List Road → Bool
roads_in cells [] = true
roads_in cells (r ∷ rs) = is_zone cells r.zone && roads_in cells rs

abbrev pub reports_in : List Cell → List Report → Bool
reports_in cells [] = true
reports_in cells (r ∷ rs) = is_zone cells r.cell && reports_in cells rs

abbrev pub is_placed : Loaded → Bool
is_placed l =
    shelters_in l.cells l.shelters && (roads_in l.cells l.roads && reports_in l.cells l.reports)

chamoli-is_placed : (hazard : String) → is_placed (chamoli hazard) ≡ true
unfolding chamoli mk_shelter
chamoli-is_placed hazard = refl

chamoli-has_hazard : (hazard : String) → has_hazard "flood" (chamoli hazard).cells ≡ true
unfolding chamoli has_hazard lookup
chamoli-has_hazard hazard = refl

abbrev pri_of : Option Profile → String
pri_of none = "flood"
pri_of (some p) = p.pri

-- While its season lasts, Uttarakhand is opened with the register of Chamoli: it is in focus, the
-- hazard in view is one that its cells have, and every shelter, road and report stands in a zone
-- that was surveyed, no shelter with more people than places.
pub load_profile-is_placed :
    (hypot : Fraction → Fraction → Fraction) (upper : String → String) (p : Profile) (t : Clock)
    (live : List (String × ℕ)) (ut_flood : Option ℕ) (s : Store)
    → state_profile "ut" ≡ some p
    → ut_active "ut" ut_flood ≡ true
    → (s' : Store) × (load_profile hypot upper (chamoli s.hazard) "ut" p t live ut_flood s
        ≡ some s')
      × (s'.focus ≡ "ut")
      × (has_hazard s'.hazard s'.loaded.cells ≡ true)
      × (is_placed s'.loaded ≡ true)
unfolding load_profile lookup
load_profile-is_placed hypot upper p t live ut_flood s e e' =
    let opened : Store = record { focus = "ut"; hazard = s.hazard; loaded = chamoli s.hazard } in
    let own : has_hazard p.pri (chamoli s.hazard).cells ≡ true =
      ap (λ h. has_hazard h (chamoli s.hazard).cells) (sym (ap pri_of e))
      ∙ chamoli-has_hazard s.hazard in
    let (focus, loaded) = with_hazard-kept p opened in
    (
      with_hazard p opened,
      rw e' refl,
      focus,
      ap (λ (l : Loaded). has_hazard (with_hazard p opened).hazard l.cells) loaded
          ∙ with_hazard-has p opened own,
      ap is_placed loaded ∙ chamoli-is_placed s.hazard,
    )
