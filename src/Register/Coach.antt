-- ===== src/Register/Coach.antt =====
-- StepThreeCoach.jsx and StepFourCoach.jsx: the steps of a coach or a referee. The number of a club is
-- natural.
pub mod Laws
pub mod Submit
use Prim.Native.String.{◌++◌ as ◌<>◌}
use Prim.Native.String
use tkd_chb.Base.{
  ℕ, ◌+◌, String, ◌==◌, Bool, true, false, not, ◌&&◌, ◌||◌, Option, none, some, List, [], ◌∷◌, ◌++◌,
  any, length, map, ltb, eqb, if◌then◌else◌,
}
use tkd_chb.Base.Text.{trim_start, includes, join, show_number}
use tkd_chb.Base.Digits.{is_digit}
use tkd_chb.Base.Js.{
  Js, undefined, null, bool, nan, num, str, arr, array, obj, end, object, is_text, truthy, or_else,
  get, elements, items, entries, is_array, is_nullish, to_text,
}
use tkd_chb.Base.Exec.{Result, ok, err}
use tkd_chb.Net.{Response, World, is_ok}
use tkd_chb.Details.Form.{Errors, when}
use tkd_chb.Details.Locked.{set_field, entries_of}
use tkd_chb.Students.Ids.{digits_value, number_of}
use tkd_chb.Register.{
  Entry, js, file, Form, field_of, set_entry, handle_data_change, is_given, text_in, text,
  is_slashed_number,
}
use tkd_chb.Register.Submit.{Send, given_entries, forget_phone}

-- data[k] as a value; a file is an object
abbrev pub value_in : Entry → Js
value_in (js v) = v
value_in (file mime size) = obj end

unfoldable pub leading_digits : String → String
leading_digits String.[] = ""
leading_digits (String.◌∷◌ c s) =
    let rest = leading_digits s in if is_digit c then String.◌∷◌ c rest else ""

-- parseInt(s, 10), without a sign
unfoldable pub parse_int : String → Js
parse_int s =
    let digits = leading_digits (trim_start s) in
    if digits == "" then nan else num (digits_value 0 digits)

abbrev pub is_number : ℕ → Js → Bool
is_number n (num m) = eqb m n
is_number n v = false

-- ids.includes(id)
abbrev pub has_number : Js → List Js → Bool
has_number (num n) vs = any (is_number n) vs
has_number v [] = false
has_number v (nan ∷ vs) = true
has_number v (_ ∷ vs) = has_number v vs

abbrev pub same_number : Js → Js → Bool
same_number (num n) v = is_number n v
same_number _ v = false

-- ids.filter((id) => id !== clubId)
unfoldable pub without_number : Js → List Js → List Js
without_number v [] = []
without_number v (w ∷ ws) =
    let rest = without_number v ws in if same_number v w then rest else w ∷ rest

-- data.selectedClubs || []
abbrev pub selected_clubs : (String → Entry) → List Js
selected_clubs at = elements (value_in (at "selectedClubs"))

-- what handleClubCheck makes of the clubs
unfoldable pub clubs_checked : Js → Bool → List Js → List Js
clubs_checked club_id checked updated =
    if checked
    then if not (has_number club_id updated) && ltb (length updated) 3
      then updated ++ club_id ∷ []
      else updated
    else without_number club_id updated

-- handleClubCheck(e)
unfoldable pub handle_club_check : String → Bool → Form → Form
handle_club_check value checked d =
    set_entry "selectedClubs"
      (js (array (clubs_checked (parse_int value) checked (selected_clubs (field_of d))))) d

-- coaches.find((c) => c.id.toString() === value)
unfoldable pub find_coach : String → List Js → Option Js
find_coach value [] = none
find_coach value (c ∷ cs) =
    let rest = find_coach value cs in if to_text (get c "id") == value then some c else rest

abbrev full_name : Option Js → Js
full_name none = str ""
full_name (some c) = get c "full_name"

-- handleChange(e) of the third step
unfoldable pub handle_change_coach : List Js → String → String → Form → Form
handle_change_coach coaches name value d =
    if name == "coach"
    then handle_data_change
        (("coach", text value) ∷ ("coachFullName", js (full_name (find_coach value coaches))) ∷ [])
        d
    else set_entry name (text value) d

-- handleRoleChange(e)
unfoldable pub handle_role_change : String → Form → Form
handle_role_change role d =
    handle_data_change
      (("role", text role)
        ∷ ("is_coach", js (bool (role == "coach" || role == "both")))
        ∷ ("is_referee", js (bool (role == "referee" || role == "both")))
        ∷ [])
      d

abbrev pub is_other : Entry → Bool
is_other v = is_text (value_in v) "other"

-- newErrors of validate() of the third step
unfoldable pub coach_errors : (String → Entry) → Errors
coach_errors at =
    when (not (is_given (at "role"))) "role"
      "\u{646}\u{642}\u{634} \u{631}\u{627} \u{627}\u{646}\u{62a}\u{62e}\u{627}\u{628} \u{6a9}\u{646}\u{6cc}\u{62f}"
      (when (ltb (length (selected_clubs at)) 1) "selectedClubs"
        "\u{62d}\u{62f}\u{627}\u{642}\u{644} \u{6cc}\u{6a9} \u{628}\u{627}\u{634}\u{6af}\u{627}\u{647} \u{627}\u{646}\u{62a}\u{62e}\u{627}\u{628} \u{6a9}\u{646}\u{6cc}\u{62f}"
        (when (not (is_given (at "coach")) && not (is_other (at "coach"))) "coach"
          "\u{645}\u{631}\u{628}\u{6cc} \u{631}\u{627} \u{627}\u{646}\u{62a}\u{62e}\u{627}\u{628} \u{6a9}\u{646}\u{6cc}\u{62f}"
          (when (is_other (at "coach") && not (is_given (at "customCoachName"))) "customCoachName"
            "\u{646}\u{627}\u{645} \u{645}\u{631}\u{628}\u{6cc} \u{631}\u{627} \u{648}\u{627}\u{631}\u{62f} \u{6a9}\u{646}\u{6cc}\u{62f}"
            (when (not (is_given (at "belt_grade"))) "belt_grade"
              "\u{62f}\u{631}\u{62c}\u{647} \u{6a9}\u{645}\u{631}\u{628}\u{646}\u{62f} \u{631}\u{627} \u{627}\u{646}\u{62a}\u{62e}\u{627}\u{628} \u{6a9}\u{646}\u{6cc}\u{62f}"
              (when (not (is_slashed_number (text_in (at "belt_certificate_number"))))
                "belt_certificate_number"
                "\u{634}\u{645}\u{627}\u{631}\u{647} \u{62d}\u{6a9}\u{645} \u{641}\u{642}\u{637} \u{634}\u{627}\u{645}\u{644} \u{639}\u{62f}\u{62f} \u{648} / \u{628}\u{627}\u{634}\u{62f}"
                (when (not (is_given (at "belt_certificate_date"))) "belt_certificate_date"
                  "\u{62a}\u{627}\u{631}\u{6cc}\u{62e} \u{62d}\u{6a9}\u{645} \u{631}\u{627} \u{648}\u{627}\u{631}\u{62f} \u{6a9}\u{646}\u{6cc}\u{62f}"
                  []))))))

abbrev pub is_role : String → Entry → Bool
is_role role v = is_text (value_in v) role || is_text (value_in v) "both"

-- Object.entries(data.refereeTypes || {}).filter(([k, v]) => v.selected)
unfoldable pub selected_types : List (String × Js) → List (String × Js)
selected_types [] = []
selected_types ((k, info) ∷ es) =
    let rest = selected_types es in if truthy (get info "selected") then (k, info) ∷ rest else rest

abbrev pub referee_types : (String → Entry) → List (String × Js)
referee_types at = selected_types (entries_of (value_in (at "refereeTypes")))

unfoldable pub type_errors : List (String × Js) → Errors → Errors
type_errors [] rest = rest
type_errors ((type, info) ∷ es) rest =
    when (not (truthy (get info "gradeNational"))) ("refereeTypes." <> type <> ".gradeNational")
      ("\u{62f}\u{631}\u{62c}\u{647} \u{645}\u{644}\u{6cc} \u{62f}\u{627}\u{648}\u{631}\u{6cc} "
        <> type <> " \u{627}\u{644}\u{632}\u{627}\u{645}\u{6cc} \u{627}\u{633}\u{62a}")
      (type_errors es rest)

abbrev pub types_or_error : List (String × Js) → Errors → Errors
types_or_error [] rest =
    (
      "refereeTypes",
      "\u{62d}\u{62f}\u{627}\u{642}\u{644} \u{6cc}\u{6a9} \u{646}\u{648}\u{639} \u{62f}\u{627}\u{648}\u{631}\u{6cc} \u{631}\u{627} \u{627}\u{646}\u{62a}\u{62e}\u{627}\u{628} \u{6a9}\u{646}\u{6cc}\u{62f}",
    )
    ∷ rest
types_or_error (e ∷ es) rest = type_errors (e ∷ es) rest

abbrev pub confirm_errors : (String → Entry) → Errors
confirm_errors at =
    when (not (is_given (at "confirm_info"))) "confirm_info"
      "\u{62a}\u{623}\u{6cc}\u{6cc}\u{62f} \u{627}\u{637}\u{644}\u{627}\u{639}\u{627}\u{62a} \u{627}\u{644}\u{632}\u{627}\u{645}\u{6cc} \u{627}\u{633}\u{62a}"
      []

-- newErrors of validate() of the fourth step
unfoldable pub grade_errors : (String → Entry) → Errors
grade_errors at =
    let confirm = confirm_errors at in
    when (is_role "coach" (at "role") && not (is_given (at "coachGradeNational")))
      "coachGradeNational"
      "\u{62f}\u{631}\u{62c}\u{647} \u{645}\u{644}\u{6cc} \u{645}\u{631}\u{628}\u{6cc}\u{6af}\u{631}\u{6cc} \u{627}\u{644}\u{632}\u{627}\u{645}\u{6cc} \u{627}\u{633}\u{62a}"
      (if is_role "referee" (at "role") then types_or_error (referee_types at) confirm else confirm)

-- data.refereeTypes with some field of a type changed
abbrev change_type : String → List (String × Js) → Form → Form
change_type key changes d =
    let types = value_in (field_of d "refereeTypes") in
    set_entry "refereeTypes" (js (object (set_field key (object changes) (entries_of types)))) d

-- toggleRefereeType(key)
unfoldable pub toggle_referee_type : String → Form → Form
toggle_referee_type key d =
    let current = get (value_in (field_of d "refereeTypes")) key in
    change_type key
      (set_field "selected" (bool (not (truthy (get current "selected")))) (entries_of current)) d

-- handleRefereeGradeChange(key, field, value)
unfoldable pub handle_referee_grade_change : String → String → String → Form → Form
handle_referee_grade_change key name value d =
    let current = get (value_in (field_of d "refereeTypes")) key in
    change_type key (set_field name (str value) (entries_of current)) d
