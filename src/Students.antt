-- ===== src/Students.antt =====
-- CoachRegisterStudents.jsx: a coach registers students for a competition. `Ids` reads the
-- enrollments in the reply. A row of the table is found by `String(id)`, the key of the object `sel`.
pub mod Submit
pub mod Ids
pub mod Selection
pub mod Validation
pub mod Posted
mod Examples
use Prim.Native.String.{◌++◌ as ◌<>◌}
use tkd_chb.Base.{
  ℕ, ◌*◌, String, ◌==◌, Bool, true, false, not, ◌&&◌, ◌||◌, Option, none, some, List, [], ◌∷◌, ◌++◌,
  length, map, every, if◌then◌else◌,
}
use tkd_chb.Base.Text.{encode_uri_component, join, show_number}
use tkd_chb.Base.Digits.{normalize_digits, sanitize_weight, is_weight}
use tkd_chb.Base.Js.{
  Js, undefined, null, num, str, truthy, is_nullish, coalesce, or_else, get, is_array, elements,
  array, object, to_text,
}
use tkd_chb.Base.Exec.{Result, ok, err}
use tkd_chb.Net.{Server, World}
use tkd_chb.Api.Endpoints.{get_coach_eligible_students, register_students_bulk}
use tkd_chb.Details.Form.{Errors, when}
use tkd_chb.Details.Eligibility.{is_empty}
use tkd_chb.Details.Submit.{message_or}
use tkd_chb.Students.Ids.{number_of, extract_enrollment_ids, value_of}

pub record Row : Type 0 where
  pub checked : Bool
  pub locked : Bool
  pub weight : String
  pub ins : String
  pub ins_date : String
  pub errors : Errors

abbrev pub Rows : Type 0
Rows = List (String × Row)

pub record Table : Type 0 where
  pub loading : Bool
  pub error : String
  pub comp : Js
  pub students : List Js
  pub sel : Rows
  pub confirm_open : Bool
  pub went : List String

-- getId(s)
unfoldable pub get_id : Js → Js
get_id s =
    coalesce (get s "id")
      (coalesce (get s "player_id") (coalesce (get s "user_id") (get s "profile_id")))

abbrev pub enrolled : Js → Bool
enrolled s = truthy (get s "already_enrolled")

-- sel[id]
unfoldable pub row_of : Rows → String → Option Row
row_of [] k = none
row_of ((j, r) ∷ rows) k = if j == k then some r else row_of rows k

-- { ...s, [id]: r }
unfoldable pub set_row : String → Row → Rows → Rows
set_row k r [] = (k, r) ∷ []
set_row k r ((j, q) ∷ rows) =
    let rest = set_row k r rows in if j == k then (j, r) ∷ rows else (j, q) ∷ rest

abbrev pub new_row : Row
new_row = record {
  checked = true;
  locked = false;
  weight = "";
  ins = "";
  ins_date = "";
  errors = [];
}

abbrev pub locked_row : Row
locked_row = record new_row { locked = true }

abbrev pub off_row : Row
off_row = record new_row { checked = false }

-- the rows of the students that are enrolled already
unfoldable pub init_rows : List Js → Rows → Rows
init_rows [] rows = rows
init_rows (s ∷ ss) rows = init_rows ss (
    if not (is_nullish (get_id s)) && enrolled s
    then set_row (to_text (get_id s)) locked_row rows
    else rows)

abbrev loaded : Result Js → Table → Table
loaded (ok res) t =
    let list = (if is_array (get res "students") then elements (get res "students") else []) in
    record t {
      loading = false;
      comp = or_else (get res "competition") null;
      students = list;
      sel = init_rows list [];
    }
loaded (err e) t = record t {
  loading = false;
  error =
      message_or e
        "\u{62e}\u{637}\u{627} \u{62f}\u{631} \u{62f}\u{631}\u{6cc}\u{627}\u{641}\u{62a} \u{644}\u{6cc}\u{633}\u{62a} \u{634}\u{627}\u{6af}\u{631}\u{62f}\u{647}\u{627}";
}

-- the effect on [slug]
unfoldable pub load : Server → String → Js → Table → World → Table × World
load server base slug t w =
    let (r, w') = get_coach_eligible_students server base slug w in
    (loaded r (record t { loading = true; error = "" }), w')

abbrev pub is_chosen : Option Row → Bool
is_chosen none = false
is_chosen (some r) = r.checked && not r.locked

-- whether a student is among the new ones of the selection
unfoldable pub is_selected : Rows → Js → Bool
is_selected sel s =
    not (is_nullish (get_id s)) && is_chosen (row_of sel (to_text (get_id s))) && not (enrolled s)

-- selectedNewIds
unfoldable pub selected_new_ids : List Js → Rows → List Js
selected_new_ids [] sel = []
selected_new_ids (s ∷ ss) sel =
    let rest = selected_new_ids ss sel in if is_selected sel s then get_id s ∷ rest else rest

-- sel[id] || {}: a row with no texts
abbrev pub row_or_blank : Option Row → Row
row_or_blank none = off_row
row_or_blank (some r) = r

-- the errors that validateRow finds
unfoldable pub row_errors : Row → Errors
row_errors r =
    when (not (is_weight (sanitize_weight r.weight))) "weight"
      "\u{648}\u{632}\u{646} \u{646}\u{627}\u{645}\u{639}\u{62a}\u{628}\u{631} \u{627}\u{633}\u{62a}."
      (when (r.ins == "") "ins"
        "\u{634}\u{645}\u{627}\u{631}\u{647} \u{628}\u{6cc}\u{645}\u{647} \u{627}\u{644}\u{632}\u{627}\u{645}\u{6cc} \u{627}\u{633}\u{62a}."
        (when (r.ins_date == "") "ins_date"
          "\u{62a}\u{627}\u{631}\u{6cc}\u{62e} \u{635}\u{62f}\u{648}\u{631} \u{628}\u{6cc}\u{645}\u{647} \u{627}\u{644}\u{632}\u{627}\u{645}\u{6cc} \u{627}\u{633}\u{62a}."
          []))

abbrev pub no_errors : Errors → Bool
no_errors [] = true
no_errors (_ ∷ _) = false

unfoldable pub is_complete : Row → Bool
is_complete r =
    is_weight (sanitize_weight r.weight)
    && not (r.ins == "")
    && not (r.ins_date == "")
    && no_errors r.errors

-- canSubmit
unfoldable pub can_submit : Table → Bool
can_submit t =
    let ids = selected_new_ids t.students t.sel in
    not (is_empty ids) && every (λ id. is_complete (row_or_blank (row_of t.sel (to_text id)))) ids

-- totalAmount
unfoldable pub total_amount : Table → ℕ
total_amount t =
    value_of (number_of (or_else (get t.comp "entry_fee") (num 0)))
    * length (selected_new_ids t.students t.sel)

abbrev pub base_row : Option Row → Row
base_row none = new_row
base_row (some r) = r

-- updateRow(id, patch)
unfoldable pub update_row : String → (Row → Row) → Rows → Rows
update_row k patch sel = set_row k (patch (base_row (row_of sel k))) sel

abbrev pub is_locked : Option Row → Bool
is_locked none = false
is_locked (some r) = r.locked

-- toggle(id, checked)
unfoldable pub toggle : String → Bool → Rows → Rows
toggle k checked sel =
    if is_locked (row_of sel k)
    then sel
    else if checked
    then update_row k (λ r. record r { checked = true }) sel
    else set_row k off_row sel

unfoldable pub on_change_weight : String → String → Rows → Rows
on_change_weight k v = update_row k λ r. record r { weight = sanitize_weight v }

unfoldable pub on_change_ins : String → String → Rows → Rows
on_change_ins k v = update_row k λ r. record r { ins = normalize_digits v }

-- the text of the date picker, or "" where it is cleared
unfoldable pub on_change_ins_date : String → String → Rows → Rows
on_change_ins_date k v = update_row k λ r. record r { ins_date = v }

-- validateRow(id): it reads `seen`, the rows of the render, and writes the current ones
unfoldable pub validate_row : Rows → String → Rows → Rows × Bool
validate_row seen k sel =
    let r = row_or_blank (row_of seen k) in
    (
      update_row k (λ q. record q { errors = row_errors r; weight = sanitize_weight r.weight }) sel,
      no_errors (row_errors r),
    )

-- for (const id of selectedNewIds) { if (!validateRow(id)) return; }
unfoldable pub validate_rows : Rows → List Js → Rows → Rows × Bool
validate_rows seen [] sel = (sel, true)
validate_rows seen (id ∷ ids) sel =
    let (sel', passed) = validate_row seen (to_text id) sel in
    let rest = validate_rows seen ids sel' in if passed then rest else (sel', false)
