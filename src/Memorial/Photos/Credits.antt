-- ===== src/Memorial/Photos/Credits.antt =====
-- memorial.js: no photograph without a credit, whatever the reader does and in whatever order.
use mathlib.Core.Path.{subst}
use aapda_sync.Base.{
  false, ◌||◌, Option, none, some, String, List, [], ◌∷◌, ◌++◌, ◌≡◌, refl, arith, inl, inr,
  is_empty, lookup, insert, Bool-cases, str_eq_iff,
}
use aapda_sync.Memorial.Photos.Rows.{
  IsCredited, Credited, StoreCredited, insert-Credited, erase-Credited, from_rows-Credited,
  lookup-Credited, Credited-take_out, put_row-Credited, delete_row-Credited,
}
use aapda_sync.Memorial.Photos.{
  Photo, Pending, Photos, Form, Outcome, first_of, given, pending_src, existing_src, load_from,
  load_local_photos, open_photo_dialog, photo_ready, photo_chosen_end, commit_with,
  commit_photo_start, commit_photo_end, remove_photo_start, remove_photo_end, reload, row_of,
}

-- The page, with the saves that wait for the store.
pub record World : Type 0 where
  pub photos : Photos
  pub saves : List (String × Photo)

abbrev pub awaited : String → Outcome → List (String × Photo) → List (String × Photo)
awaited id (Outcome.saving row) saves = (id, row) ∷ saves
awaited id Outcome.no_image saves = saves
awaited id Outcome.no_credit saves = saves

-- What may happen: a handler runs to its `await`, or one of those that wait goes on.
pub data Step (events : List String) (w : World) : World → Type 0 where
  opens : (id : String) → Step events w (record w { photos = open_photo_dialog events id w.photos })
  is_ready :
      (src : Option String) → Step events w (record w { photos = photo_chosen_end src w.photos })
  commits :
      (id : String) (form : Form)
      → Step events w (record {
        photos = (commit_photo_start id form w.photos).0;
        saves = awaited id (commit_photo_start id form w.photos).1 w.saves;
      })
  saves :
      (before after : List (String × Photo)) (id : String) (row : Photo)
      → w.saves ≡ before ++ (id, row) ∷ after
      → Step events w
          (record { photos = commit_photo_end id row w.photos; saves = before ++ after })
  removes : (id : String) → Step events w (record w { photos = remove_photo_start id w.photos })
  deletes : (id : String) → Step events w (record w { photos = remove_photo_end id w.photos })
  loads : Step events w (record w { photos = load_local_photos w.photos })
  reloads : Step events w (record { photos = reload w.photos; saves = [] })

pub data Reach (events : List String) (a : World) : World → Type 0 where
  here : Reach events a a
  next : {b c : World} → Reach events a b → Step events b c → Reach events a c

pub record IsSafe (w : World) : Type 0 where
  pub browser : Credited w.photos.in_browser
  pub store : StoreCredited w.photos.store
  pub waiting : Credited w.saves

given_ne : (o : Option String) (src : String) → given o ≡ some src → is_empty src ≡ false
given_ne none src e = cc
given_ne (some t) src e = ground (arith, str_eq_iff t "", str_eq_iff src "")

first_of_ne :
    (a b : Option String) (src : String)
    → first_of (given a) (given b) ≡ some src
    → is_empty src ≡ false
first_of_ne none b src e = given_ne b src e
first_of_ne (some t) b src e = ground (arith, given_ne b src, given_ne (some t) src)

sources_ne :
    (p : Option Pending) (q : Option Photo) (src : String)
    → first_of (pending_src p) (existing_src q) ≡ some src
    → is_empty src ≡ false
sources_ne none none src e = cc
sources_ne none (some q) src e = first_of_ne none (some q.src) src e
sources_ne (some p) none src e = first_of_ne p.src none src e
sources_ne (some p) (some q) src e = first_of_ne p.src (some q.src) src e

pub is_saved :
    (src id : String) (form : Form) (s : Photos)
    → (is_empty form.credit || is_empty form.licence) ≡ false
    → commit_with (some src) id form s ≡ (
      record s { in_browser = insert id (row_of src form) s.in_browser },
      Outcome.saving (row_of src form),
    )
unfolding commit_with
is_saved src id form s e = ground arith

photo_ready-IsSafe :
    (src : Option String) (p : Option Pending) (w : World)
    → IsSafe w
    → IsSafe (record w { photos = photo_ready src p w.photos })
unfolding photo_ready
photo_ready-IsSafe none p w h = h
photo_ready-IsSafe (some src) none w h = h
photo_ready-IsSafe (some src) (some p) w h = record {
  browser = h.browser;
  store = h.store;
  waiting = h.waiting;
}

load_from-IsSafe :
    (o : Option (List (String × Photo))) (w : World)
    → IsSafe w
    → StoreCredited o
    → IsSafe (record w { photos = load_from o w.photos })
unfolding load_from
load_from-IsSafe none w h k = record { browser = tt; store = h.store; waiting = h.waiting }
load_from-IsSafe (some rows) w h k = record {
  browser = from_rows-Credited rows [] k tt;
  store = h.store;
  waiting = h.waiting;
}

commit_with-IsSafe :
    (o : Option String) (id : String) (form : Form) (s : Photos) (waiting : List (String × Photo))
    → ((src : String) → o ≡ some src → is_empty src ≡ false)
    → IsSafe (record { photos = s; saves = waiting })
    → IsSafe (record {
      photos = (commit_with o id form s).0;
      saves = awaited id (commit_with o id form s).1 waiting;
    })
unfolding commit_with
commit_with-IsSafe none id form s waiting ne h = h
commit_with-IsSafe (some src) id form s waiting ne h =
    elim (Bool-cases (is_empty form.credit || is_empty form.licence)) [
      | inl e ↦ ground arith
      | inr e ↦
          (let k : IsCredited (row_of src form) = (ne src refl, ground arith, ground arith) in
            rw (is_saved src id form s e) (record {
              browser = insert-Credited id (row_of src form) s.in_browser k h.browser;
              store = h.store;
              waiting = (k, h.waiting);
            }))
    ]

Step-IsSafe : (events : List String) {w v : World} → Step events w v → IsSafe w → IsSafe v
unfolding open_photo_dialog commit_photo_start commit_photo_end remove_photo_start remove_photo_end
Step-IsSafe events (Step.opens id) h = ground arith
Step-IsSafe events {w} (Step.is_ready src) h = photo_ready-IsSafe src w.photos.pending w h
Step-IsSafe events {w} (Step.commits id form) h =
    commit_with-IsSafe _ id form w.photos w.saves
      (sources_ne w.photos.pending (lookup id w.photos.in_browser)) h
Step-IsSafe events {w} (Step.saves before after id row e) h =
    let (k, k') = Credited-take_out before after id row (subst Credited e h.waiting) in
    record {
      browser = h.browser;
      store = put_row-Credited id row w.photos.store k h.store;
      waiting = k';
    }
Step-IsSafe events {w} (Step.removes id) h = record {
  browser = erase-Credited id w.photos.in_browser h.browser;
  store = h.store;
  waiting = h.waiting;
}
Step-IsSafe events {w} (Step.deletes id) h = record {
  browser = h.browser;
  store = delete_row-Credited id w.photos.store h.store;
  waiting = h.waiting;
}
Step-IsSafe events {w} Step.loads h = load_from-IsSafe w.photos.store w h h.store
Step-IsSafe events Step.reloads h = record { browser = tt; store = h.store; waiting = tt }

Reach-IsSafe : (events : List String) {w v : World} → IsSafe w → Reach events w v → IsSafe v
Reach-IsSafe events h Reach.here = h
Reach-IsSafe events h (Reach.next r s) = Step-IsSafe events s (Reach-IsSafe events h r)

-- Whatever the reader does with the dialogs, and in whatever order the files and the store answer: a
-- photograph of this browser that is shown has a picture, names the one who took it and has a licence,
-- where the photographs in the store had them.
pub Reach-IsCredited :
    (events : List String) (a b : World) (id : String) (p : Photo)
    → IsSafe a
    → Reach events a b
    → lookup id b.photos.in_browser ≡ some p
    → IsCredited p
Reach-IsCredited events a b id p h r e =
    lookup-Credited id p b.photos.in_browser (Reach-IsSafe events h r).browser e
