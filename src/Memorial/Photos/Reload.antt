-- ===== src/Memorial/Photos/Reload.antt =====
-- memorial.js: what a photograph that was saved shows after the page is loaded again, and what becomes
-- of a file that is ready late.
use mathlib.Core.Option
use aapda_sync.Base.{
  true, false, ◌||◌, Option, none, some, String, List, [], ◌∷◌, ◌≡◌, refl, ◌∙◌, sym, ap, arith,
  if◌then◌else◌, is_empty, str_eq, any, lookup, insert, lookup-insert, erase, lookup-erase, Unique,
  insert-Unique, erase-Unique, str_eq_iff, str_eq_refl, map,
}
use aapda_sync.Memorial.Photos.Credits.{is_saved}
use aapda_sync.Memorial.Photos.{
  Photo, Photos, Form, Outcome, Credit, first_of, pending_src, photo_for, from_rows, load_from,
  load_local_photos, is_nil, open_photo_dialog, photo_ready, photo_chosen_end, commit_photo_start,
  commit_photo_end, remove_photo_start, remove_photo_end, reload, row_of, export_credits, credit_of,
}

lookup-from_rows :
    (id : String) (rows photos : List (String × Photo))
    → Unique rows
    → lookup id (from_rows rows photos) ≡ first_of (lookup id rows) (lookup id photos)
unfolding lookup from_rows
lookup-from_rows id [] photos h = refl
lookup-from_rows id ((j, row) ∷ rows) photos h = ground (
  arith,
  lookup-from_rows id rows (insert j row photos) h.1,
  lookup-insert j id row photos,
  str_eq_iff j id,
)

first_of-none {ℓ} : {A : Type ℓ} (o : Option A) → first_of o none ≡ o
first_of-none none = refl
first_of-none (some a) = refl

lookup-insert_self :
    (id : String) (row : Photo) (rows : List (String × Photo))
    → lookup id (insert id row rows) ≡ some row
lookup-insert_self id row rows =
    lookup-insert id id row rows ∙ ap (λ b. if b then some row else lookup id rows) (str_eq_refl id)

lookup-erase_self : (id : String) (rows : List (String × Photo)) → lookup id (erase id rows) ≡ none
lookup-erase_self id rows =
    lookup-erase id id rows ∙ ap (λ b. if b then none else lookup id rows) (str_eq_refl id)

pub lookup-loaded :
    (id : String) (rows : List (String × Photo))
    → Unique rows
    → lookup id (from_rows rows []) ≡ lookup id rows
unfolding lookup
lookup-loaded id rows u = lookup-from_rows id rows [] u ∙ first_of-none (lookup id rows)

commit_started :
    (id src : String) (form : Form) (s : Photos)
    → pending_src s.pending ≡ some src
    → (is_empty form.credit || is_empty form.licence) ≡ false
    → commit_photo_start id form s ≡ (
      record s { in_browser = insert id (row_of src form) s.in_browser },
      Outcome.saving (row_of src form),
    )
unfolding commit_photo_start
commit_started id src form s e e' = rw e (is_saved src id form s e')

-- The reader adds a photograph to an event, and the store takes it: shown are the picture of the
-- dialog, its credit and its licence, if the build has no photograph of the event; and after the page
-- was loaded again and the store was read, the same is shown as before.
pub commit_photo-reload :
    (build rows : List (String × Photo)) (id src : String) (form : Form) (s : Photos)
    → s.store ≡ some rows
    → Unique rows
    → pending_src s.pending ≡ some src
    → (is_empty form.credit || is_empty form.licence) ≡ false
    → let saved = commit_photo_end id (row_of src form) (commit_photo_start id form s).0 in
      (photo_for build id saved ≡ first_of (lookup id build) (some (row_of src form)))
      × (photo_for build id (load_local_photos (reload saved)) ≡ photo_for build id saved)
unfolding commit_photo_end load_from
commit_photo-reload build rows id src form s e u e' e'' =
    let row = row_of src form in
    let shown = lookup-insert_self id row s.in_browser in
    let kept = lookup-insert_self id row rows in
    let loaded = lookup-loaded id (insert id row rows) (insert-Unique id row rows u) in
    rw (commit_started id src form s e' e'', e)
      (
        ap (first_of (lookup id build)) shown,
        ap (first_of (lookup id build)) (loaded ∙ kept ∙ sym shown),
      )

-- A photograph that the reader takes away is gone, and after the page was loaded again it still is.
pub remove_photo-reload :
    (build rows : List (String × Photo)) (id : String) (s : Photos)
    → s.store ≡ some rows
    → Unique rows
    → let removed = remove_photo_end id (remove_photo_start id s) in
      (photo_for build id removed ≡ lookup id build)
      × (photo_for build id (load_local_photos (reload removed)) ≡ lookup id build)
unfolding remove_photo_start remove_photo_end load_from
remove_photo-reload build rows id s e u =
    let gone = lookup-erase_self id s.in_browser in
    let loaded = lookup-loaded id (erase id rows) (erase-Unique id rows u) in
    rw e (
      ap (first_of (lookup id build)) gone ∙ first_of-none (lookup id build),
      ap (first_of (lookup id build)) (loaded ∙ lookup-erase_self id rows)
          ∙ first_of-none (lookup id build),
    )

-- A file that is chosen for one event and ready only when the dialog of another is open becomes the
-- photograph of the other event, under the credit that the reader gives there.
pub photo_chosen_end-other :
    (events : List String) (first second src : String) (form : Form) (s : Photos)
    → any (λ e. str_eq e first) events ≡ true
    → any (λ e. str_eq e second) events ≡ true
    → is_empty src ≡ false
    → (is_empty form.credit || is_empty form.licence) ≡ false
    → lookup second
        (commit_photo_start second form (
          photo_chosen_end
            (some src)
            (open_photo_dialog events second (open_photo_dialog events first s)))).0.in_browser
      ≡ some (row_of src form)
unfolding open_photo_dialog photo_ready
photo_chosen_end-other events first second src form s k k' ne e =
    let ready : Photos = record s { pending = some (record { id = second; src = some src }) } in
    rw (k, k')
      (rw (commit_started second src form ready (rw ne refl) e)
        (lookup-insert_self second (row_of src form) s.in_browser))

abbrev exported : List (String × Photo) → List (String × Credit)
exported rows = map (λ (row : String × Photo). (row.0, credit_of row.1)) rows

lookup-exported :
    (id : String) (rows : List (String × Photo))
    → lookup id (exported rows) ≡ Option.map credit_of (lookup id rows)
unfolding lookup
lookup-exported id [] = refl
lookup-exported id ((j, p) ∷ rows) = ground (arith, lookup-exported id rows)

export_credits-rows :
    (rows : List (String × Photo)) (s : Photos)
    → s.in_browser ≡ rows
    → export_credits s ≡ (if is_nil rows then none else some (exported rows))
unfolding export_credits
export_credits-rows rows s e = rw e refl

some-exported :
    (rows : List (String × Photo)) (out : List (String × Credit))
    → (if is_nil rows then none else some (exported rows)) ≡ some out
    → exported rows ≡ out
some-exported [] out e = cc
some-exported (row ∷ rows) out e = cc

-- What is exported names, for every photograph of this browser, its credit, its licence and where it
-- came from, and nothing else.
pub export_credits-lookup :
    (id : String) (s : Photos) (out : List (String × Credit))
    → export_credits s ≡ some out
    → lookup id out ≡ Option.map credit_of (lookup id s.in_browser)
export_credits-lookup id s out e =
    let same = some-exported s.in_browser out (sym (export_credits-rows s.in_browser s refl) ∙ e) in
    ap (lookup id) (sym same) ∙ lookup-exported id s.in_browser
