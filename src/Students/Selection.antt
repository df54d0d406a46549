-- ===== src/Students/Selection.antt =====
-- The boxes of the table: what a toggle selects.
use tkd_chb.Base.{
  ◌≡◌, refl, String, ◌==◌, eq_iff, Bool, true, false, not, ◌&&◌, Option, none, some, [], ◌∷◌,
  if◌then◌else◌, arith,
}
use tkd_chb.Base.Js.{Js, is_nullish, to_text}
use tkd_chb.Students.{
  Row, Rows, get_id, enrolled, row_of, set_row, off_row, is_chosen, is_selected, base_row,
  update_row, is_locked, toggle,
}

pub row_of-set_row :
    (k : String) (r : Row) (rows : Rows) (j : String)
    → row_of (set_row k r rows) j ≡ (if k == j then some r else row_of rows j)
unfolding row_of set_row
row_of-set_row k r [] j = refl
row_of-set_row k r ((i, q) ∷ rows) j =
    ground (arith, row_of-set_row k r rows j, eq_iff i k, eq_iff i j, eq_iff k j)

base_row-unlocked : (o : Option Row) → is_locked o ≡ false → (base_row o).locked ≡ false
base_row-unlocked none h = refl
base_row-unlocked (some r) h = h

is_chosen-toggle :
    (k j : String) (checked : Bool) (sel : Rows)
    → is_locked (row_of sel k) ≡ false
    → is_chosen (row_of (toggle k checked sel) j)
      ≡ (if k == j then checked else is_chosen (row_of sel j))
unfolding toggle update_row
is_chosen-toggle k j true sel free =
    rw (free, row_of-set_row k (record (base_row (row_of sel k)) { checked = true }) sel j)
      (ground (arith, base_row-unlocked (row_of sel k) free))
is_chosen-toggle k j false sel free = rw (free, row_of-set_row k off_row sel j) (ground arith)

-- Toggling a box that is not locked selects the student of that key exactly as the box says, unless
-- the student is enrolled already, and leaves every other student as it was.
pub is_selected-toggle :
    (k : String) (checked : Bool) (sel : Rows) (s : Js)
    → is_locked (row_of sel k) ≡ false
    → is_selected (toggle k checked sel) s ≡ (
        if k == to_text (get_id s)
        then not (is_nullish (get_id s)) && checked && not (enrolled s)
        else is_selected sel s)
unfolding is_selected
is_selected-toggle k checked sel s free =
    rw (is_chosen-toggle k (to_text (get_id s)) checked sel free) (ground arith)
