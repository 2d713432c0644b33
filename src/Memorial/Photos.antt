-- ===== src/Memorial/Photos.antt =====
-- memorial.js `loadLocalPhotos`, `photoFor`, `shrink` (the size), `savePhoto`, `removePhoto`,
-- `openPhotoDialog`, `photoChosen`, `commitPhoto` and `exportCredits`. A handler that waits is two
-- functions, before and behind its `await`. The texts of the dialog come trimmed.
pub mod Rows
pub mod Credits
pub mod Reload
pub mod Album
pub mod Refined
use aapda_sync.Base.{
  ℕ, suc, ◌+◌, Bool, true, false, not, ◌&&◌, ◌||◌, Option, none, some, String, List, [], ◌∷◌,
  if◌then◌else◌, is_empty, str_eq, any, lookup, insert, erase, map,
}
use aapda_sync.Base.Floats.{Floats, num}

-- A row of `localPhotos`, of PHOTOS and of the object store.
pub record Photo : Type 0 where
  pub src : String
  pub credit : String
  pub licence : String
  pub source : String

-- `pendingPhoto`
pub record Pending : Type 0 where
  pub id : String
  pub src : Option String

-- `localPhotos`, `pendingPhoto`, `photoRev`; and the object store, `none` where the browser does not
-- let the page store anything.
pub record Photos : Type 0 where
  pub in_browser : List (String × Photo)
  pub pending : Option Pending
  pub rev : ℕ
  pub store : Option (List (String × Photo))

abbrev pub first_of {ℓ} : {A : Type ℓ} → Option A → Option A → Option A
first_of none b = b
first_of (some a) b = some a

-- `photoFor(id)`; `build` is PHOTOS.
abbrev pub photo_for : (build : List (String × Photo)) → String → Photos → Option Photo
photo_for build id s = first_of (lookup id build) (lookup id s.in_browser)

-- `for (const row of all) localPhotos[row.id] = row`
unfoldable pub from_rows : List (String × Photo) → List (String × Photo) → List (String × Photo)
from_rows [] photos = photos
from_rows ((id, row) ∷ rows) photos = from_rows rows (insert id row photos)

abbrev pub is_nil {ℓ} : {A : Type ℓ} → List A → Bool
is_nil [] = true
is_nil (x ∷ xs) = false

unfoldable pub load_from : Option (List (String × Photo)) → Photos → Photos
load_from none s = record s { in_browser = [] }
load_from (some rows) s = record s {
  in_browser = from_rows rows [];
  rev = if is_nil rows then s.rev else suc s.rev;
}

-- `loadLocalPhotos()`, once the store has answered.
abbrev pub load_local_photos : Photos → Photos
load_local_photos s = load_from s.store s

abbrev pub put_row :
    String → Photo → Option (List (String × Photo)) → Option (List (String × Photo))
put_row id row none = none
put_row id row (some rows) = some (insert id row rows)

abbrev pub delete_row : String → Option (List (String × Photo)) → Option (List (String × Photo))
delete_row id none = none
delete_row id (some rows) = some (erase id rows)

-- `openPhotoDialog(id, file)`; `events` are the ids of PAST_EVENTS. A file that comes with it goes to
-- `photoChosen`.
unfoldable pub open_photo_dialog : (events : List String) → String → Photos → Photos
open_photo_dialog events id s =
    if any (λ e. str_eq e id) events
    then record s { pending = some (record { id = id; src = none }) }
    else s

-- `photoChosen(file)` behind `await shrink(file)`: `none` where the file could not be read. Where no
-- dialog is open the assignment throws, which is caught.
unfoldable pub photo_ready : (src : Option String) → Option Pending → Photos → Photos
photo_ready none p s = s
photo_ready (some src) none s = s
photo_ready (some src) (some p) s = record s { pending = some (record p { src = some src }) }

abbrev pub photo_chosen_end : Option String → Photos → Photos
photo_chosen_end src s = photo_ready src s.pending s

pub record Form : Type 0 where
  pub credit : String
  pub licence : String
  pub source : String

-- `x && x.src`, where the empty text counts as none.
abbrev pub given : Option String → Option String
given none = none
given (some src) = if is_empty src then none else some src

abbrev pub pending_src : Option Pending → Option String
pending_src none = none
pending_src (some p) = given p.src

abbrev pub existing_src : Option Photo → Option String
existing_src none = none
existing_src (some p) = given (some p.src)

pub data Outcome : Type 0 where
  no_image : Outcome
  no_credit : Outcome
  saving : Photo → Outcome

abbrev pub row_of : String → Form → Photo
row_of src form = record {
  src = src;
  credit = form.credit;
  licence = form.licence;
  source = form.source;
}

-- What `commitPhoto` does with the picture it has; `saving` is the row that waits for the store.
unfoldable pub commit_with : Option String → String → Form → Photos → Photos × Outcome
commit_with none id form s = (s, Outcome.no_image)
commit_with (some src) id form s =
    if is_empty form.credit || is_empty form.licence then (s, Outcome.no_credit) else (
      record s { in_browser = insert id (row_of src form) s.in_browser },
      Outcome.saving (row_of src form),
    )

-- `commitPhoto(id)` to the `await` of `savePhoto`, where the store is opened.
unfoldable pub commit_photo_start : String → Form → Photos → Photos × Outcome
commit_photo_start id form s =
    commit_with (first_of (pending_src s.pending) (existing_src (lookup id s.in_browser))) id form s

-- The rest of `savePhoto` and of `commitPhoto`, for the row that is saved.
unfoldable pub commit_photo_end : String → Photo → Photos → Photos
commit_photo_end id row s = record s {
  store = put_row id row s.store;
  pending = none;
  rev = suc s.rev;
}

-- `removePhoto(id)`, before and behind its `await`.
unfoldable pub remove_photo_start : String → Photos → Photos
remove_photo_start id s = record s { in_browser = erase id s.in_browser }

unfoldable pub remove_photo_end : String → Photos → Photos
remove_photo_end id s = record s { store = delete_row id s.store; rev = suc s.rev }

-- The page is loaded again: what is kept is the store.
abbrev pub reload : Photos → Photos
reload s = record { in_browser = []; pending = none; rev = 0; store = s.store }

-- What `exportCredits` writes of a photograph.
pub record Credit : Type 0 where
  pub credit : String
  pub licence : String
  pub source : String

abbrev pub credit_of : Photo → Credit
credit_of p = record { credit = p.credit; licence = p.licence; source = p.source }

-- `exportCredits()`, `none` where there is nothing to export.
unfoldable pub export_credits : Photos → Option (List (String × Credit))
export_credits s =
    if is_nil s.in_browser
    then none
    else some (map (λ (row : String × Photo). (row.0, credit_of row.1)) s.in_browser)

-- The size that `shrink` gives a picture.
unfoldable pub shrunk : (F : Floats) (max_w width height : F.Num) → F.Num × F.Num
shrunk F max_w width height =
    let scale = F.least (num F 1) (F.div max_w width) in
    (F.round (F.mul width scale), F.round (F.mul height scale))
