-- ===== src/Memorial/Photos/Rows.antt =====
-- memorial.js: rows of photographs that all name their author and their licence.
use aapda_sync.Base.{
  false, Option, none, some, String, List, [], ◌∷◌, ◌++◌, ◌≡◌, arith, inl, inr, is_empty, str_eq,
  lookup, insert, erase, Bool-cases,
}
use aapda_sync.Memorial.Photos.{Photo, from_rows, put_row, delete_row}

-- A photograph with its picture, the one who took it, and its licence.
abbrev pub IsCredited : Photo → Type 0
IsCredited p = (is_empty p.src ≡ false) × (is_empty p.credit ≡ false) × (is_empty p.licence ≡ false)

abbrev pub Credited : List (String × Photo) → Type 0
Credited [] = Unit
Credited ((id, p) ∷ rows) = IsCredited p × Credited rows

abbrev pub StoreCredited : Option (List (String × Photo)) → Type 0
StoreCredited none = Unit
StoreCredited (some rows) = Credited rows

pub insert-Credited :
    (id : String) (p : Photo) (rows : List (String × Photo))
    → IsCredited p
    → Credited rows
    → Credited (insert id p rows)
unfolding insert
insert-Credited id p [] h k = (h, tt)
insert-Credited id p ((j, q) ∷ rows) h k = ground (arith, insert-Credited id p rows h k.1)

pub erase-Credited :
    (id : String) (rows : List (String × Photo)) → Credited rows → Credited (erase id rows)
unfolding erase
erase-Credited id [] k = tt
erase-Credited id ((j, q) ∷ rows) k = ground (arith, erase-Credited id rows k.1)

pub from_rows-Credited :
    (rows photos : List (String × Photo))
    → Credited rows
    → Credited photos
    → Credited (from_rows rows photos)
unfolding from_rows
from_rows-Credited [] photos k h = h
from_rows-Credited ((id, row) ∷ rows) photos k h =
    from_rows-Credited rows (insert id row photos) k.1 (insert-Credited id row photos k.0 h)

pub lookup-Credited :
    (id : String) (p : Photo) (rows : List (String × Photo))
    → Credited rows
    → lookup id rows ≡ some p
    → IsCredited p
unfolding lookup
lookup-Credited id p [] k e = cc
lookup-Credited id p ((j, q) ∷ rows) k e = elim (Bool-cases (str_eq j id)) [
  | inl y ↦ ground (arith)
  | inr n ↦ lookup-Credited id p rows k.1 (ground arith)
]

pub Credited-take_out :
    (p q : List (String × Photo)) (id : String) (row : Photo)
    → Credited (p ++ (id, row) ∷ q)
    → IsCredited row × Credited (p ++ q)
Credited-take_out [] q id row h = h
Credited-take_out (x ∷ p) q id row h =
    let (k, k') = Credited-take_out p q id row h.1 in (k, (h.0, k'))

pub put_row-Credited :
    (id : String) (row : Photo) (o : Option (List (String × Photo)))
    → IsCredited row
    → StoreCredited o
    → StoreCredited (put_row id row o)
put_row-Credited id row none k h = tt
put_row-Credited id row (some rows) k h = insert-Credited id row rows k h

pub delete_row-Credited :
    (id : String) (o : Option (List (String × Photo)))
    → StoreCredited o
    → StoreCredited (delete_row id o)
delete_row-Credited id none h = tt
delete_row-Credited id (some rows) h = erase-Credited id rows h
