-- ===== src/Register/Coach/Submit.antt =====
-- RegisterCoachPage.jsx: how a coach is registered. Whether a response says that it is JSON is a
-- parameter.
use Prim.Native.String.{◌++◌ as ◌<>◌}
use tkd_chb.Base.{
  ℕ, ◌+◌, String, ◌==◌, Bool, true, false, not, ◌&&◌, Option, none, some, List, [], ◌∷◌, ◌++◌, map,
  if◌then◌else◌,
}
use tkd_chb.Base.Text.{includes, join, show_number}
use tkd_chb.Base.Js.{
  Js, null, nan, num, str, arr, array, obj, end, is_text, truthy, or_else, get, elements, items,
  entries, is_array, is_nullish, to_text,
}
use tkd_chb.Base.Exec.{Result, ok, err}
use tkd_chb.Net.{Response, World, is_ok}
use tkd_chb.Students.Ids.{number_of}
use tkd_chb.Register.{js, Form, field_of, set_entry, text}
use tkd_chb.Register.Submit.{Send, given_entries, forget_phone}
use tkd_chb.Register.Coach.{value_in, is_other}

-- delete data[k]
unfoldable pub remove_entry : String → Form → Form
remove_entry k [] = []
remove_entry k ((j, v) ∷ d) = let rest = remove_entry k d in if j == k then rest else (j, v) ∷ rest

abbrev to_number : Option ℕ → Js
to_number none = nan
to_number (some n) = num n

-- preparedData
unfoldable pub prepared_data : (Js → String) → Form → Form
prepared_data stringify d =
    let coached =
      if is_other (field_of d "coach")
      then set_entry "coach_name" (field_of d "customCoachName") (set_entry "coach" (js null) d)
      else remove_entry "coach_name"
          (set_entry "coach" (js (to_number (number_of (value_in (field_of d "coach"))))) d) in
    let named = remove_entry "customCoachName" coached in
    set_entry "refereeTypes"
      (text (stringify (or_else (value_in (field_of d "refereeTypes")) (obj end))))
      (set_entry "selectedClubs"
        (text (stringify (or_else (value_in (field_of d "selectedClubs")) (array [])))) named)

-- fieldMap
abbrev field_names : List (String × String)
field_names =
    ("first_name", "\u{646}\u{627}\u{645}")
    ∷ (
      "last_name", "\u{646}\u{627}\u{645} \u{62e}\u{627}\u{646}\u{648}\u{627}\u{62f}\u{6af}\u{6cc}",
    )
    ∷ ("father_name", "\u{646}\u{627}\u{645} \u{67e}\u{62f}\u{631}")
    ∷ ("national_code", "\u{6a9}\u{62f} \u{645}\u{644}\u{6cc}")
    ∷ ("phone", "\u{634}\u{645}\u{627}\u{631}\u{647} \u{645}\u{648}\u{628}\u{627}\u{6cc}\u{644}")
    ∷ ("birth_date", "\u{62a}\u{627}\u{631}\u{6cc}\u{62e} \u{62a}\u{648}\u{644}\u{62f}")
    ∷ ("gender", "\u{62c}\u{646}\u{633}\u{6cc}\u{62a}")
    ∷ ("province", "\u{627}\u{633}\u{62a}\u{627}\u{646}")
    ∷ ("county", "\u{634}\u{647}\u{631}\u{633}\u{62a}\u{627}\u{646}")
    ∷ ("city", "\u{634}\u{647}\u{631}")
    ∷ ("address", "\u{622}\u{62f}\u{631}\u{633}")
    ∷ ("tkd_board", "\u{647}\u{6cc}\u{626}\u{62a}")
    ∷ ("belt_grade", "\u{6a9}\u{645}\u{631}\u{628}\u{646}\u{62f}")
    ∷ (
      "belt_certificate_number", "\u{634}\u{645}\u{627}\u{631}\u{647} \u{645}\u{62f}\u{631}\u{6a9}",
    )
    ∷ ("belt_certificate_date", "\u{62a}\u{627}\u{631}\u{6cc}\u{62e} \u{645}\u{62f}\u{631}\u{6a9}")
    ∷ ("profile_image", "\u{639}\u{6a9}\u{633} \u{67e}\u{631}\u{648}\u{641}\u{627}\u{6cc}\u{644}")
    ∷ (
      "coach_level",
      "\u{62f}\u{631}\u{62c}\u{647} \u{645}\u{631}\u{628}\u{6cc}\u{6af}\u{631}\u{6cc} \u{645}\u{644}\u{6cc}",
    )
    ∷ (
      "coach_level_International",
      "\u{62f}\u{631}\u{62c}\u{647} \u{645}\u{631}\u{628}\u{6cc}\u{6af}\u{631}\u{6cc} \u{628}\u{6cc}\u{646}\u{200c}\u{627}\u{644}\u{645}\u{644}\u{644}\u{6cc}",
    )
    ∷ (
      "confirm_info",
      "\u{62a}\u{623}\u{6cc}\u{6cc}\u{62f} \u{627}\u{637}\u{644}\u{627}\u{639}\u{627}\u{62a}",
    )
    ∷ (
      "refereeTypes",
      "\u{627}\u{637}\u{644}\u{627}\u{639}\u{627}\u{62a} \u{62f}\u{627}\u{648}\u{631}\u{6cc}",
    )
    ∷ ("selectedClubs", "\u{628}\u{627}\u{634}\u{6af}\u{627}\u{647}\u{200c}\u{647}\u{627}")
    ∷ []

abbrev name_in : List (String × String) → String → String
name_in [] k = k
name_in ((j, name) ∷ names) k = if j == k then name else name_in names k

-- translateField(field)
unfoldable pub translate_field : String → String
translate_field field = name_in field_names field

abbrev pub numbered : ℕ → List Js → List (String × Js)
numbered n [] = []
numbered n (v ∷ vs) = (show_number n, v) ∷ numbered (n + 1) vs

abbrev pub letters : String → List Js
letters String.[] = []
letters (String.◌∷◌ c s) = str (String.◌∷◌ c String.[]) ∷ letters s

-- what `for (const field in errors)` runs over
abbrev pub fields_in : Js → List (String × Js)
fields_in (obj fs) = entries fs
fields_in (arr vs) = numbered 0 (items vs)
fields_in (str s) = numbered 0 (letters s)
fields_in _ = []

unfoldable pub error_messages : List (String × Js) → List String
error_messages [] = []
error_messages ((k, v) ∷ es) =
    map (λ e. translate_field k <> ": " <> to_text e) (if is_array v then elements v else v ∷ [])
    ++ error_messages es

-- parseServerErrors(errors)
unfoldable pub parse_server_errors : Js → String
parse_server_errors errors = join "\n" (error_messages (fields_in errors))

pub record CoachPage : Type 0 where
  pub modal_message : String
  pub show_modal : Bool

-- showError(msg) and showSuccess(msg)
abbrev pub show_message : String → CoachPage
show_message m = record { modal_message = m; show_modal = true }

abbrev no_connection : CoachPage
no_connection =
    show_message
      "\u{62e}\u{637}\u{627}\u{6cc} \u{627}\u{631}\u{62a}\u{628}\u{627}\u{637} \u{628}\u{627} \u{633}\u{631}\u{648}\u{631}. \u{644}\u{637}\u{641}\u{627}ً \u{62f}\u{648}\u{628}\u{627}\u{631}\u{647} \u{62a}\u{644}\u{627}\u{634} \u{6a9}\u{646}\u{6cc}\u{62f}."

-- what is shown of a reply, and whether the coach is registered
unfoldable pub coach_reply : (Js → String) → Bool → ℕ → Js → CoachPage × Bool
coach_reply stringify is_json status v =
    if is_nullish v
    then (no_connection, false)
    else if not (is_ok status)
    then (
      if is_json && truthy (get v "errors")
          then show_message (parse_server_errors (get v "errors"))
          else show_message (
              "\u{62e}\u{637}\u{627}\u{6cc} \u{646}\u{627}\u{634}\u{646}\u{627}\u{62e}\u{62a}\u{647}:\n"
              <> stringify v),
      false,
    )
    else if is_text (get v "status") "ok"
    then (
      show_message (
          to_text (
            or_else (get v "message") (
              str
                "\u{627}\u{637}\u{644}\u{627}\u{639}\u{627}\u{62a} \u{634}\u{645}\u{627} \u{62b}\u{628}\u{62a} \u{648} \u{62f}\u{631} \u{627}\u{646}\u{62a}\u{638}\u{627}\u{631} \u{62a}\u{627}\u{6cc}\u{6cc}\u{62f} \u{647}\u{6cc}\u{626}\u{62a} \u{627}\u{633}\u{62a}\u{627}\u{646} \u{645}\u{6cc}\u{200c}\u{628}\u{627}\u{634}\u{62f}."))),
      true,
    )
    else (
      show_message (
          to_text (
            or_else (get v "message") (
              str
                "\u{62e}\u{637}\u{627}\u{6cc}\u{6cc} \u{62f}\u{631} \u{62b}\u{628}\u{62a}\u{200c}\u{646}\u{627}\u{645} \u{631}\u{62e} \u{62f}\u{627}\u{62f}."))),
      false,
    )

unfoldable pub received_coach :
    (Js → String) → (Response → Bool) → Result Response → CoachPage × Bool
received_coach stringify is_json (err e) = (no_connection, false)
received_coach stringify is_json (ok res) =
    if is_json res
    then elim res.json [
      | none ↦ (no_connection, false)
      | some v ↦ coach_reply stringify true res.status v
    ]
    else coach_reply stringify false res.status (str res.text)

-- handleSubmit() of the page
unfoldable pub submit_coach :
    Send → (Js → String) → (Response → Bool) → Form → World → CoachPage × World
submit_coach send stringify is_json d w =
    let (r, w') = send (given_entries stringify (prepared_data stringify d)) w in
    let (page, registered) = received_coach stringify is_json r in
    (page, if registered then forget_phone w' else w')

-- onClose of the window, with whether the browser goes to "/"
unfoldable pub close_coach : CoachPage → CoachPage × Bool
close_coach p = (
  record p { show_modal = false },
  includes p.modal_message "\u{645}\u{648}\u{641}\u{642}\u{6cc}\u{62a}",
)
