-- ===== src/Memorial/Photos/Album.antt =====
-- memorial.js: what the photographs promise, without their rows. There are two maps from events to
-- photographs, the one that is shown and the one that is kept; a step puts one photograph in, takes one
-- out, or reads the one map into the other.

use aapda_sync.Base.{
  Option, none, some, String, List, [], ◌∷◌, ◌≡◌, sym, if◌then◌else◌, str_eq, lookup, lookup-insert,
  lookup-erase, insert, erase, Unique,
}
use aapda_sync.Memorial.Photos.{Photo, from_rows}
use aapda_sync.Memorial.Photos.Credits.{World}
use aapda_sync.Memorial.Photos.Reload.{lookup-loaded}

abbrev pub Album : Type 0
Album = String → Option Photo

abbrev pub with_photo : String → Photo → Album → Album
with_photo id p album k = if str_eq id k then some p else album k

abbrev pub without_photo : String → Album → Album
without_photo id album k = if str_eq id k then none else album k

pub record Albums : Type 0 where
  pub shown : Album
  pub kept : Album

-- What a step may do to the two maps.
pub data Op : Type 0 where
  nothing : Op
  shows keeps : (id : String) (p : Photo) → Op
  hides drops : (id : String) → Op
  reads forgets : Op

abbrev pub run : Op → Albums → Albums
run Op.nothing a = a
run (Op.shows id p) a = record a { shown = with_photo id p a.shown }
run (Op.keeps id p) a = record a { kept = with_photo id p a.kept }
run (Op.hides id) a = record a { shown = without_photo id a.shown }
run (Op.drops id) a = record a { kept = without_photo id a.kept }
run Op.reads a = record a { shown = a.kept }
run Op.forgets a = record a { shown = λ k. none }

-- The newest of them stands first.
abbrev pub run_all : List Op → Albums → Albums
run_all [] a = a
run_all (op ∷ ops) a = run op (run_all ops a)

abbrev pub rows_in : Option (List (String × Photo)) → List (String × Photo)
rows_in none = []
rows_in (some rows) = rows

-- The maps that the rows stand for.
abbrev pub album_of : List (String × Photo) → Album
album_of rows k = lookup k rows

abbrev pub albums_of : World → Albums
albums_of w = record {
  shown = album_of w.photos.in_browser;
  kept = album_of (rows_in w.photos.store);
}

-- The browser keeps what it is given, one row for an event.
pub record IsKept (w : World) : Type 0 where
  pub rows : List (String × Photo)
  pub in_store : w.photos.store ≡ some rows
  pub unique : Unique rows

pub album_of-insert :
    (id : String) (p : Photo) (rows : List (String × Photo))
    → album_of (insert id p rows) ≡ with_photo id p (album_of rows)
album_of-insert id p rows i k = lookup-insert id k p rows i

pub album_of-erase :
    (id : String) (rows : List (String × Photo))
    → album_of (erase id rows) ≡ without_photo id (album_of rows)
album_of-erase id rows i k = lookup-erase id k rows i

pub album_of-loaded :
    (rows : List (String × Photo)) → Unique rows → album_of (from_rows rows []) ≡ album_of rows
album_of-loaded rows u i k = lookup-loaded k rows u i

pub shown_as :
    (w v : World) (album : Album)
    → album_of v.photos.in_browser ≡ album
    → v.photos.store ≡ w.photos.store
    → record (albums_of w) { shown = album } ≡ albums_of v
shown_as w v album e e' i = record { shown = sym e i; kept = album_of (rows_in (sym e' i)) }

pub kept_as :
    (w v : World) (album : Album)
    → v.photos.in_browser ≡ w.photos.in_browser
    → album_of (rows_in v.photos.store) ≡ album
    → record (albums_of w) { kept = album } ≡ albums_of v
kept_as w v album e e' i = record { shown = album_of (sym e i); kept = sym e' i }
