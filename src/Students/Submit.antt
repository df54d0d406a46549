-- ===== src/Students/Submit.antt =====
-- CoachRegisterStudents.jsx: what `submit` sends, and what becomes of the reply.
use Prim.Native.String.{◌++◌ as ◌<>◌}
use tkd_chb.Base.{ℕ, String, false, Option, none, some, List, [], ◌∷◌, ◌++◌, map, if◌then◌else◌}
use tkd_chb.Base.Text.{encode_uri_component, join, show_number}
use tkd_chb.Base.Js.{Js, num, str, truthy, get, array, object, to_text}
use tkd_chb.Base.Exec.{Result, ok, err}
use tkd_chb.Net.{Server, World}
use tkd_chb.Api.Endpoints.{register_students_bulk}
use tkd_chb.Details.Submit.{message_or}
use tkd_chb.Students.Ids.{number_of, extract_enrollment_ids}
use tkd_chb.Students.{Rows, Table, row_of, selected_new_ids, row_or_blank, validate_rows}

abbrev pub number_js : Option ℕ → Js
number_js none = Js.nan
number_js (some n) = num n

-- one student of the payload, from the rows of the render
unfoldable pub student_payload : Rows → Js → Js
student_payload seen id =
    let r = row_or_blank (row_of seen (to_text id)) in
    object (
      ("player_id", number_js (number_of id))
      ∷ ("declared_weight", str r.weight)
      ∷ ("insurance_number", str r.ins)
      ∷ ("insurance_issue_date", str r.ins_date)
      ∷ [])

unfoldable pub students_payload : Rows → List Js → Js
students_payload seen ids = object (("students", array (map (student_payload seen) ids)) ∷ [])

abbrev pub go : String → Table → Table
go path t = record t { went = t.went ++ path ∷ [] }

abbrev pub no_ids_text : String
no_ids_text =
    "\u{62b}\u{628}\u{62a} \u{627}\u{646}\u{62c}\u{627}\u{645} \u{634}\u{62f} \u{627}\u{645}\u{627} \u{634}\u{646}\u{627}\u{633}\u{647}\u{200c}\u{647}\u{627}\u{6cc} \u{62b}\u{628}\u{62a}\u{200c}\u{646}\u{627}\u{645} \u{62f}\u{631} \u{67e}\u{627}\u{633}\u{62e} \u{646}\u{628}\u{648}\u{62f}. \u{644}\u{637}\u{641}\u{627}ً \u{62e}\u{631}\u{648}\u{62c}\u{6cc} \u{648}\u{6cc}\u{648} \u{631}\u{627} \u{637}\u{648}\u{631}\u{6cc} \u{628}\u{631}\u{6af}\u{631}\u{62f}\u{627}\u{646} \u{6a9}\u{647} 'enrollment_ids' \u{6cc}\u{627} 'enrollments' \u{62f}\u{627}\u{634}\u{62a}\u{647} \u{628}\u{627}\u{634}\u{62f}."

unfoldable pub cards_or_error : String → List ℕ → Table → Table
cards_or_error role [] t = record t { error = no_ids_text }
cards_or_error role (n ∷ ns) t =
    go
      ("/dashboard/"
        <> encode_uri_component role
        <> "/enrollments/bulk?ids="
        <> encode_uri_component (join "," (map show_number (n ∷ ns))))
      t

unfoldable pub registered : String → Result Js → Table → Table
registered role (ok res) t =
    if truthy (get res "payment_url")
    then go (to_text (get res "payment_url")) t
    else cards_or_error role (extract_enrollment_ids res) t
registered role (err e) t = record t {
  error =
      message_or e
        "\u{62e}\u{637}\u{627} \u{62f}\u{631} \u{62b}\u{628}\u{62a}\u{200c}\u{646}\u{627}\u{645}";
}

-- submit(); its `finally` closes the question
unfoldable pub submit : Server → String → Js → String → Table → World → Table × World
submit server base slug role t w =
    let ids = selected_new_ids t.students t.sel in
    let (sel, passed) = validate_rows t.sel ids t.sel in
    let here = record t { error = ""; sel = sel } in
    let (r, w') = register_students_bulk server base slug (students_payload t.sel ids) w in
    if passed
    then (record (registered role r here) { loading = false; confirm_open = false }, w')
    else (here, w)
