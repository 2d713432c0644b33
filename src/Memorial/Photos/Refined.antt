-- ===== src/Memorial/Photos/Refined.antt =====
-- memorial.js: the handlers of the photographs do what the two maps of Album allow.
use aapda_sync.Base.{
  ◌||◌, Option, none, some, String, List, [], ◌∷◌, ◌++◌, ◌≡◌, refl, sym, ap, ◌∙◌, arith, inl, inr,
  is_empty, lookup, insert, erase, Unique, insert-Unique, erase-Unique, Bool-cases,
}
use aapda_sync.Memorial.Photos.{
  Photo, Pending, Photos, Form, Outcome, load_from, load_local_photos, open_photo_dialog,
  photo_ready, commit_with, commit_photo_start, commit_photo_end, remove_photo_start,
  remove_photo_end, reload, row_of, put_row, delete_row,
}
use aapda_sync.Memorial.Photos.Credits.{World, Step, Reach, awaited, is_saved}
use aapda_sync.Memorial.Photos.Album.{
  with_photo, without_photo, Op, run, run_all, rows_in, album_of, albums_of, IsKept,
  album_of-insert, album_of-erase, album_of-loaded, shown_as, kept_as,
}

-- The two maps of a page, and that a step changes only one of them.
abbrev page : Photos → List (String × Photo) → World
page s saves = record { photos = s; saves = saves }

IsKept-same : (w v : World) → v.photos.store ≡ w.photos.store → IsKept w → IsKept v
IsKept-same w v e h = record { rows = h.rows; in_store = e ∙ h.in_store; unique = h.unique }

-- The row that was committed goes into the map that is shown; a dialog that is turned back does
-- nothing.
abbrev pub op_of_commit : String → Outcome → Op
op_of_commit id Outcome.no_image = Op.nothing
op_of_commit id Outcome.no_credit = Op.nothing
op_of_commit id (Outcome.saving row) = Op.shows id row

-- What each handler is to do to the maps.
abbrev pub op_of : {events : List String} {w v : World} → Step events w v → Op
op_of (Step.opens id) = Op.nothing
op_of (Step.is_ready src) = Op.nothing
op_of {w = w} (Step.commits id form) = op_of_commit id (commit_photo_start id form w.photos).1
op_of (Step.saves before after id row e) = Op.keeps id row
op_of (Step.removes id) = Op.hides id
op_of (Step.deletes id) = Op.drops id
op_of Step.loads = Op.reads
op_of Step.reloads = Op.forgets

abbrev pub ops_of : {events : List String} {a b : World} → Reach events a b → List Op
ops_of Reach.here = []
ops_of (Reach.next r s) = op_of s ∷ ops_of r

abbrev Simulated : World → Op → World → Type 0
Simulated w op v = (run op (albums_of w) ≡ albums_of v) × IsKept v

stays :
    (w v : World)
    → v.photos.in_browser ≡ w.photos.in_browser
    → v.photos.store ≡ w.photos.store
    → IsKept w
    → Simulated w Op.nothing v
stays w v e e' h =
    (shown_as w v (album_of w.photos.in_browser) (ap album_of e) e', IsKept-same w v e' h)

opened :
    (events : List String) (id : String) (s : Photos)
    → ((open_photo_dialog events id s).in_browser ≡ s.in_browser)
      × ((open_photo_dialog events id s).store ≡ s.store)
unfolding open_photo_dialog
opened events id s = ground arith

readied :
    (src : Option String) (p : Option Pending) (s : Photos)
    → ((photo_ready src p s).in_browser ≡ s.in_browser) × ((photo_ready src p s).store ≡ s.store)
unfolding photo_ready
readied none p s = (refl, refl)
readied (some src) none s = (refl, refl)
readied (some src) (some p) s = (refl, refl)

committed :
    (o : Option String) (id : String) (form : Form) (s : Photos) (waiting : List (String × Photo))
    → IsKept (page s waiting)
    → Simulated
        (page s waiting)
        (op_of_commit id (commit_with o id form s).1)
        (page (commit_with o id form s).0 (awaited id (commit_with o id form s).1 waiting))
unfolding commit_with
committed none id form s waiting h = (refl, h)
committed (some src) id form s waiting h =
    elim (Bool-cases (is_empty form.credit || is_empty form.licence)) [
      | inl e ↦ rw e (refl, h)
      | inr e ↦
          (let row = row_of src form in
            let w = page s waiting in
            let v =
              page (record s { in_browser = insert id row s.in_browser }) ((id, row) ∷ waiting) in
            rw (is_saved src id form s e) (
              (shown_as w v (with_photo id row (album_of s.in_browser))
                  (album_of-insert id row s.in_browser) refl),
              IsKept-same w v refl h,
            ))
    ]

saved :
    (id : String) (row : Photo) (s : Photos) (before after : List (String × Photo))
    → IsKept (page s before)
    → Simulated (page s before) (Op.keeps id row) (page (commit_photo_end id row s) after)
unfolding commit_photo_end
saved id row s before after h =
    let w = page s before in
    let v = page (commit_photo_end id row s) after in
    let kept = ap (λ o. put_row id row o) h.in_store in
    (
      (kept_as w v (with_photo id row (album_of (rows_in s.store))) refl (
          ap (λ o. album_of (rows_in o)) kept
          ∙ album_of-insert id row h.rows
          ∙ ap (λ o. with_photo id row (album_of (rows_in o))) (sym h.in_store))),
      record {
        rows = insert id row h.rows;
        in_store = kept;
        unique = insert-Unique id row h.rows h.unique;
      },
    )

deleted :
    (id : String) (s : Photos) (waiting : List (String × Photo))
    → IsKept (page s waiting)
    → Simulated (page s waiting) (Op.drops id) (page (remove_photo_end id s) waiting)
unfolding remove_photo_end
deleted id s waiting h =
    let w = page s waiting in
    let v = page (remove_photo_end id s) waiting in
    let kept = ap (λ o. delete_row id o) h.in_store in
    (
      (kept_as w v (without_photo id (album_of (rows_in s.store))) refl (
          ap (λ o. album_of (rows_in o)) kept
          ∙ album_of-erase id h.rows
          ∙ ap (λ o. without_photo id (album_of (rows_in o))) (sym h.in_store))),
      record { rows = erase id h.rows; in_store = kept; unique = erase-Unique id h.rows h.unique },
    )

removed :
    (id : String) (s : Photos) (waiting : List (String × Photo))
    → IsKept (page s waiting)
    → Simulated (page s waiting) (Op.hides id) (page (remove_photo_start id s) waiting)
unfolding remove_photo_start
removed id s waiting h =
    let w = page s waiting in
    let v = page (remove_photo_start id s) waiting in
    (
      (shown_as w v (without_photo id (album_of s.in_browser)) (album_of-erase id s.in_browser)
          refl),
      IsKept-same w v refl h,
    )

load_from-store :
    (o : Option (List (String × Photo))) (s : Photos) → (load_from o s).store ≡ s.store
unfolding load_from
load_from-store none s = refl
load_from-store (some rows) s = refl

load_from-album :
    (s : Photos) (rows : List (String × Photo))
    → Unique rows
    → s.store ≡ some rows
    → album_of (load_from s.store s).in_browser ≡ album_of (rows_in s.store)
unfolding load_from
load_from-album s rows u e = rw e (album_of-loaded rows u)

loaded :
    (s : Photos) (waiting : List (String × Photo))
    → IsKept (page s waiting)
    → Simulated (page s waiting) Op.reads (page (load_local_photos s) waiting)
unfolding load_from
loaded s waiting h =
    let w = page s waiting in
    let v = page (load_local_photos s) waiting in
    (
      (shown_as w v (album_of (rows_in s.store)) (load_from-album s h.rows h.unique h.in_store)
          (load_from-store s.store s)),
      IsKept-same w v (load_from-store s.store s) h,
    )

reloaded :
    (s : Photos) (waiting : List (String × Photo))
    → IsKept (page s waiting)
    → Simulated (page s waiting) Op.forgets (page (reload s) [])
unfolding lookup
reloaded s waiting h = (refl, IsKept-same (page s waiting) (page (reload s) []) refl h)

Step-Simulated :
    (events : List String) {w v : World}
    → (s : Step events w v) → IsKept w
    → Simulated w (op_of s) v
unfolding commit_photo_start
Step-Simulated events {w} (Step.opens id) h =
    let (e, e') = opened events id w.photos in stays w _ e e' h
Step-Simulated events {w} (Step.is_ready src) h =
    let (e, e') = readied src w.photos.pending w.photos in stays w _ e e' h
Step-Simulated events {w} (Step.commits id form) h = committed _ id form w.photos w.saves h
Step-Simulated events {w} (Step.saves before after id row e) h =
    saved id row w.photos w.saves (before ++ after) h
Step-Simulated events {w} (Step.removes id) h = removed id w.photos w.saves h
Step-Simulated events {w} (Step.deletes id) h = deleted id w.photos w.saves h
Step-Simulated events {w} Step.loads h = loaded w.photos w.saves h
Step-Simulated events {w} Step.reloads h = reloaded w.photos w.saves h

-- Where the browser lets the page store its photographs, one row for an event: whatever the reader does
-- with the dialogs, and in whatever order the files and the store answer, the map that is shown and the
-- map that is kept are what the steps make of the first ones, in their order. A dialog that commits a
-- photograph puts it into the shown map, and its `await` puts the row into the kept one; a removal takes
-- the photograph out of the shown map and then out of the kept one; the loading reads the kept map into
-- the shown one; a reload forgets the shown one; and a dialog that opens, a file that is read, and a
-- commit that is turned back do nothing.
pub Reach-runs :
    (events : List String) (a b : World)
    → IsKept a
    → (r : Reach events a b) → (run_all (ops_of r) (albums_of a) ≡ albums_of b) × IsKept b
Reach-runs events a b h Reach.here = (refl, h)
Reach-runs events a b h (Reach.next r s) =
    let (made, k) = Reach-runs events a _ h r in
    let (makes, k') = Step-Simulated events s k in (ap (run (op_of s)) made ∙ makes, k')
