-- ===== src/Students/Examples.antt =====
-- The theorems on the table of students at concrete rows and replies.
use tkd_chb.Base.{◌≡◌, refl, ◌==◌, true, false, not, ◌&&◌, [], ◌∷◌, if◌then◌else◌, some}
use tkd_chb.Base.Js.{Js, null, num, str, array, object, is_nullish, to_text}
use tkd_chb.Net.{Server, World, answered}
use tkd_chb.Students.{Row, Rows, Table, new_row, get_id, enrolled, row_of, is_selected, toggle}
use tkd_chb.Students.Submit.{submit}
use tkd_chb.Students.Selection.{is_selected-toggle}
use tkd_chb.Students.Validation.{submit-IsSettled, IsSettled}

abbrev sara : Js
sara = object (("id", num 5) ∷ [])

abbrev ready_row : Row
ready_row = record new_row { weight = "54.5"; ins = "12"; ins_date = "1403/10/12" }

abbrev one_row : Rows
one_row = ("5", ready_row) ∷ []

abbrev one_student : Table
one_student = record {
  loading = false;
  error = "";
  comp = null;
  students = sara ∷ [];
  sel = one_row;
  confirm_open = true;
  went = [];
}

abbrev server : Server
server sent req = answered (record {
  status = 201;
  status_text = "Created";
  json = some (object (("enrollment_ids", array (num 9 ∷ [])) ∷ []));
  text = "";
})

abbrev world : World
world = record { storage = ("coach_token", "t") ∷ []; sent = [] }

is_selected-toggle_example : is_selected (toggle "5" false one_row) sara ≡ (
    if "5" == to_text (get_id sara)
    then not (is_nullish (get_id sara)) && false && not (enrolled sara)
    else is_selected one_row sara)
unfolding row_of
is_selected-toggle_example = is_selected-toggle "5" false one_row sara refl

submit-IsSettled_example :
    IsSettled server "http://x"
      (str "k")
      "coach"
      one_student
      world
      (submit server "http://x" (str "k") "coach" one_student world).0
      (submit server "http://x" (str "k") "coach" one_student world).1
submit-IsSettled_example =
    submit-IsSettled server "http://x" (str "k") "coach" one_student world refl
