-- ===== src/Memorial/Tests.antt =====
-- Two events and a photograph of one of them.
use aapda_sync.Base.Int.{pos, pos_part, neg_part, ◌-ℤ◌, ◌+ℤ◌}
use aapda_sync.Base.{
  ℕ, ◌≤◌, none, some, String, List, [], ◌∷◌, ◌≡◌, ◌↔◌, refl, arith, lookup, insert,
}
use aapda_sync.Memorial.Gallery.{
  Gallery, gal_to, gal_go, gal_up, lift_from, gal_move, move_from, gal_down, offset, twice,
}
use aapda_sync.Memorial.Gallery.Offsets.{offset-near}
use aapda_sync.Memorial.Photos.{
  Photos, Form, photo_for, first_of, load_local_photos, commit_with, commit_photo_start,
  commit_photo_end, reload, row_of,
}
use aapda_sync.Memorial.Photos.Rows.{IsCredited}
use aapda_sync.Memorial.Photos.Credits
use aapda_sync.Memorial.Photos.Credits.{World, IsSafe, Reach-IsCredited}
use aapda_sync.Memorial.Photos.Album.{run_all, albums_of, IsKept}
use aapda_sync.Memorial.Photos.Refined.{ops_of, Reach-runs}
use aapda_sync.Memorial.Photos.Reload.{commit_photo-reload}

abbrev gallery : Gallery
gallery = record { idx = pos 0; timer = none; drag = none; intervals = []; next_id = 1 }

swiped : (gal_up 5 (gal_move (pos 20) (gal_down (pos 90) gallery))).idx ≡ pos 1
unfolding lift_from move_from gal_go gal_to ◌-ℤ◌ ◌+ℤ◌
swiped = refl

abbrev last : ℕ
last = 4

offset-near_example :
    ((offset 5 0 last ≡ pos 0) ↔ (last ≡ 0))
    × (pos_part (twice (offset 5 0 last)) ≤ 5)
    × (neg_part (twice (offset 5 0 last)) ≤ 5)
offset-near_example = offset-near 5 0 last (omega arith) (omega arith)

abbrev events : List String
events = "bhola" ∷ "latur" ∷ []

abbrev form : Form
form = record { credit = "NASA"; licence = "Public domain"; source = "" }

abbrev empty : Photos
empty = record { in_browser = []; pending = none; rev = 0; store = some [] }

abbrev chosen : Photos
chosen = record empty { pending = some (record { id = "latur"; src = some "data:1" }) }

abbrev stored : Photos
stored = commit_photo_end "latur" (row_of "data:1" form) (commit_photo_start "latur" form chosen).0

commit_photo-reload_example :
    (photo_for [] "latur" stored ≡ first_of (lookup "latur" []) (some (row_of "data:1" form)))
    × (photo_for [] "latur" (load_local_photos (reload stored)) ≡ photo_for [] "latur" stored)
commit_photo-reload_example =
    commit_photo-reload [] [] "latur" "data:1" form chosen refl tt refl refl

abbrev opened : World
opened = record { photos = chosen; saves = [] }

opened-IsSafe : IsSafe opened
opened-IsSafe = record { browser = tt; store = tt; waiting = tt }

abbrev added : World
added = record {
  photos = (commit_photo_start "latur" form chosen).0;
  saves = ("latur", row_of "data:1" form) ∷ [];
}

adds : Credits.Reach events opened added
unfolding commit_photo_start commit_with lookup insert
adds = Credits.Reach.next Credits.Reach.here (Credits.Step.commits "latur" form)

Reach-IsCredited_example : IsCredited (row_of "data:1" form)
unfolding commit_photo_start commit_with lookup insert
Reach-IsCredited_example =
    Reach-IsCredited events opened added "latur" (row_of "data:1" form) opened-IsSafe adds refl

opened-IsKept : IsKept opened
opened-IsKept = record { rows = []; in_store = refl; unique = tt }

Reach-runs_example : (run_all (ops_of adds) (albums_of opened) ≡ albums_of added) × IsKept added
Reach-runs_example = Reach-runs events opened added opened-IsKept adds
