-- ===== src/Register/Club.antt =====
-- RegisterClubPage.jsx, StepOneClub.jsx, StepTwoClub.jsx and StepThreeClub.jsx: the registration of a
-- club.
pub mod Laws
use Prim.Native.Char.{code}
use Prim.Native.String.{◌++◌ as ◌<>◌}
use tkd_chb.Base.{
  ℕ, ◌*◌, String, ◌==◌, Bool, true, false, not, ◌&&◌, ◌||◌, Option, none, some, List, [], ◌∷◌, ◌++◌,
  ltb, leb, eqb, if◌then◌else◌,
}
use tkd_chb.Base.Text.{trim, length_text, nth_char, every_char, filter_chars, join}
use tkd_chb.Base.Digits.{is_digit}
use tkd_chb.Base.Js.{
  Js, undefined, null, bool, str, obj, end, is_text, is_array, is_nullish, elements, or_else, get,
  join_items, to_text,
}
use tkd_chb.Base.Exec.{Result, ok, err}
use tkd_chb.Net.{Request, Response, Server, World, is_ok, fetch}
use tkd_chb.Details.Form.{Errors, when}
use tkd_chb.Register.{
  Entry, js, file, Form, field_of, set_entry, handle_data_change, is_given, text_in, text, has,
  push_once, is_numeric, is_slashed_number,
}
use tkd_chb.Register.Place.{Found, nothing_found, report, check_required, is_clean}
use tkd_chb.Register.Submit.{Send, is_missing, Outcome, failed_with, succeeded, forget_phone}
use tkd_chb.Register.Coach.{parse_int}
use tkd_chb.Register.Coach.Submit.{fields_in}

-- formData of the page, with the verified phone
unfoldable pub initial_club : String → Form
initial_club phone =
    ("club_name", text "")
    ∷ ("founder_name", text "")
    ∷ ("founder_national_code", text "")
    ∷ ("founder_phone", text phone)
    ∷ ("club_type", text "")
    ∷ ("activity_description", text "")
    ∷ ("province", text "")
    ∷ ("county", text "")
    ∷ ("city", text "")
    ∷ ("tkd_board", text "")
    ∷ ("phone", text "")
    ∷ ("address", text "")
    ∷ ("license_number", text "")
    ∷ ("federation_id", text "")
    ∷ ("license_image", js null)
    ∷ ("confirm_info", js (bool false))
    ∷ []

-- handleChange(e) of the first step
unfoldable pub handle_change_founder : String → String → Form → Form
handle_change_founder name value d = set_entry name (text (trim value)) d

-- newErrors of validate() of the first step
unfoldable pub founder_errors : (String → Entry) → Errors
founder_errors at =
    when (not (is_given (at "club_name"))) "club_name"
      "\u{646}\u{627}\u{645} \u{628}\u{627}\u{634}\u{6af}\u{627}\u{647} \u{627}\u{644}\u{632}\u{627}\u{645}\u{6cc} \u{627}\u{633}\u{62a}"
      (when (not (is_given (at "founder_name"))) "founder_name"
        "\u{646}\u{627}\u{645} \u{645}\u{624}\u{633}\u{633} \u{627}\u{644}\u{632}\u{627}\u{645}\u{6cc} \u{627}\u{633}\u{62a}"
        (when
          (not (
            is_numeric (text_in (at "founder_national_code"))
            && eqb (length_text (text_in (at "founder_national_code"))) 10))
          "founder_national_code"
          "\u{6a9}\u{62f} \u{645}\u{644}\u{6cc} \u{628}\u{627}\u{6cc}\u{62f} ۱۰ \u{631}\u{642}\u{645} \u{639}\u{62f}\u{62f}\u{6cc} \u{628}\u{627}\u{634}\u{62f}"
          (when (not (is_given (at "club_type"))) "club_type"
            "\u{646}\u{648}\u{639} \u{628}\u{627}\u{634}\u{6af}\u{627}\u{647} \u{631}\u{627} \u{627}\u{646}\u{62a}\u{62e}\u{627}\u{628} \u{6a9}\u{646}\u{6cc}\u{62f}"
            (when
              (not (is_given (at "activity_description"))
                || ltb (length_text (text_in (at "activity_description"))) 10)
              "activity_description"
              "\u{62a}\u{648}\u{636}\u{6cc}\u{62d} \u{641}\u{639}\u{627}\u{644}\u{6cc}\u{62a} \u{628}\u{627}\u{6cc}\u{62f} \u{62d}\u{62f}\u{627}\u{642}\u{644} ۱۰ \u{6a9}\u{627}\u{631}\u{627}\u{6a9}\u{62a}\u{631} \u{628}\u{627}\u{634}\u{62f}"
              []))))

-- the boards that the effect of the second step loads
unfoldable pub boards_received : Result Response → List Js → List Js
boards_received (err e) boards = boards
boards_received (ok res) boards = elim res.json [
  | none ↦ boards
  | some v ↦ if is_nullish v then boards else elements (get v "heyats")
]

abbrev boards_request : Request
boards_request = record {
  url = "http://localhost:8000/api/auth/form-data/";
  method = "GET";
  headers = [];
  body = undefined;
}

unfoldable pub load_boards : Server → List Js → World → List Js × World
load_boards server boards w =
    let (r, w') = fetch server boards_request w in (boards_received r boards, w')

-- handleChange(e) of the second step
unfoldable pub handle_change_seat : String → String → Form → Form
handle_change_seat name value d =
    if name == "province"
    then handle_data_change
        (("province", text value) ∷ ("county", text "") ∷ ("city", text "") ∷ []) d
    else if name == "county"
    then handle_data_change (("county", text value) ∷ ("city", text "") ∷ []) d
    else if name == "tkd_board"
    then set_entry name (js (parse_int value)) d
    else set_entry name (text value) d

-- onChange of the phone: only its digits stay
unfoldable pub change_club_phone : String → Form → Form
change_club_phone value d = set_entry "phone" (text (filter_chars is_digit value)) d

abbrev pub seat_messages : List (String × String)
seat_messages =
    (
      "province",
      "\u{627}\u{633}\u{62a}\u{627}\u{646} \u{631}\u{627} \u{648}\u{627}\u{631}\u{62f} \u{6a9}\u{646}\u{6cc}\u{62f}.",
    )
    ∷ (
      "tkd_board",
      "\u{647}\u{6cc}\u{626}\u{62a} \u{631}\u{627} \u{627}\u{646}\u{62a}\u{62e}\u{627}\u{628} \u{6a9}\u{646}\u{6cc}\u{62f}.",
    )
    ∷ (
      "county",
      "\u{634}\u{647}\u{631}\u{633}\u{62a}\u{627}\u{646} \u{631}\u{627} \u{648}\u{627}\u{631}\u{62f} \u{6a9}\u{646}\u{6cc}\u{62f}.",
    )
    ∷ (
      "city",
      "\u{634}\u{647}\u{631} \u{631}\u{627} \u{648}\u{627}\u{631}\u{62f} \u{6a9}\u{646}\u{6cc}\u{62f}.",
    )
    ∷ (
      "phone",
      "\u{634}\u{645}\u{627}\u{631}\u{647} \u{62a}\u{645}\u{627}\u{633} \u{631}\u{627} \u{648}\u{627}\u{631}\u{62f} \u{6a9}\u{646}\u{6cc}\u{62f}.",
    )
    ∷ (
      "address",
      "\u{622}\u{62f}\u{631}\u{633} \u{631}\u{627} \u{648}\u{627}\u{631}\u{62f} \u{6a9}\u{646}\u{6cc}\u{62f}.",
    )
    ∷ []

abbrev char_is : String → ℕ → ℕ → Bool
char_is s i c = eqb (code (nth_char s i)) c

-- /^0(9\d{9}|38\d{8})$/
unfoldable pub is_club_phone : String → Bool
is_club_phone s =
    eqb (length_text s) 11
    && every_char is_digit s
    && char_is s 0 48
    && (char_is s 1 57 || char_is s 1 51 && char_is s 2 56)

abbrev pub phone_message : String
phone_message =
    "\u{634}\u{645}\u{627}\u{631}\u{647} \u{62a}\u{645}\u{627}\u{633} \u{628}\u{627}\u{6cc}\u{62f} \u{628}\u{627} 09 \u{6cc}\u{627} 038 \u{634}\u{631}\u{648}\u{639} \u{634}\u{62f}\u{647} \u{648} ۱۱ \u{631}\u{642}\u{645} \u{628}\u{627}\u{634}\u{62f}."

abbrev pub short_address : String
short_address =
    "\u{622}\u{62f}\u{631}\u{633} \u{628}\u{627}\u{6cc}\u{62f} \u{62d}\u{62f}\u{627}\u{642}\u{644} ۱۰ \u{6a9}\u{627}\u{631}\u{627}\u{6a9}\u{62a}\u{631} \u{628}\u{627}\u{634}\u{62f}."

unfoldable pub check_club_phone : Entry → Found → Found
check_club_phone v f =
    if is_given v && not (is_club_phone (text_in v)) then report "phone" phone_message f else f

unfoldable pub check_club_address : Entry → Found → Found
check_club_address v f =
    if is_given v && ltb (length_text (text_in v)) 10 then report "address" short_address f else f

-- what validate() of the second step finds
unfoldable pub seat_found : (String → Entry) → Found
seat_found at =
    check_club_address (at "address")
      (check_club_phone (at "phone") (check_required at seat_messages nothing_found))

-- a change of the third step: a text, a tick or the first file
unfoldable pub handle_change_license : String → Entry → Form → Form
handle_change_license name (file mime size) d = set_entry "license_image" (file mime size) d
handle_change_license name (js v) d = set_entry name (js v) d

abbrev pub license_messages : List (String × String)
license_messages =
    (
      "license_number",
      "\u{634}\u{645}\u{627}\u{631}\u{647} \u{645}\u{62c}\u{648}\u{632} \u{627}\u{644}\u{632}\u{627}\u{645}\u{6cc} \u{627}\u{633}\u{62a}.",
    )
    ∷ (
      "federation_id",
      "\u{634}\u{646}\u{627}\u{633}\u{647} \u{62b}\u{628}\u{62a} \u{62f}\u{631} \u{641}\u{62f}\u{631}\u{627}\u{633}\u{6cc}\u{648}\u{646} \u{627}\u{644}\u{632}\u{627}\u{645}\u{6cc} \u{627}\u{633}\u{62a}.",
    )
    ∷ (
      "license_image",
      "\u{628}\u{627}\u{631}\u{6af}\u{630}\u{627}\u{631}\u{6cc} \u{62a}\u{635}\u{648}\u{6cc}\u{631} \u{645}\u{62c}\u{648}\u{632} \u{627}\u{644}\u{632}\u{627}\u{645}\u{6cc} \u{627}\u{633}\u{62a}.",
    )
    ∷ []

abbrev pub number_message : String
number_message =
    "\u{634}\u{645}\u{627}\u{631}\u{647} \u{645}\u{62c}\u{648}\u{632} \u{641}\u{642}\u{637} \u{634}\u{627}\u{645}\u{644} \u{639}\u{62f}\u{62f} \u{648} \"/\" \u{628}\u{627}\u{634}\u{62f}."

abbrev pub type_message : String
type_message =
    "\u{641}\u{631}\u{645}\u{62a} \u{62a}\u{635}\u{648}\u{6cc}\u{631} \u{628}\u{627}\u{6cc}\u{62f} JPG \u{6cc}\u{627} PNG \u{628}\u{627}\u{634}\u{62f}."

abbrev pub size_message : String
size_message =
    "\u{62d}\u{62c}\u{645} \u{62a}\u{635}\u{648}\u{6cc}\u{631} \u{646}\u{628}\u{627}\u{6cc}\u{62f} \u{628}\u{6cc}\u{634}\u{62a}\u{631} \u{627}\u{632} ۲۰۰ \u{6a9}\u{6cc}\u{644}\u{648}\u{628}\u{627}\u{6cc}\u{62a} \u{628}\u{627}\u{634}\u{62f}."

abbrev pub confirm_message : String
confirm_message =
    "\u{644}\u{637}\u{641}\u{627}ً \u{635}\u{62d}\u{62a} \u{627}\u{637}\u{644}\u{627}\u{639}\u{627}\u{62a} \u{631}\u{627} \u{62a}\u{623}\u{6cc}\u{6cc}\u{62f} \u{6a9}\u{646}\u{6cc}\u{62f}."

abbrev pub image_types : List String
image_types = "image/jpeg" ∷ "image/jpg" ∷ "image/png" ∷ []

-- what is no file has neither a type nor a size
abbrev pub has_type : Entry → Bool
has_type (file mime size) = has mime image_types
has_type (js v) = false

abbrev pub is_small : Entry → Bool
is_small (file mime size) = leb size (200 * 1024)
is_small (js v) = false

unfoldable pub check_number : Entry → Found → Found
check_number v f =
    if is_given v && not (is_slashed_number (text_in v))
    then report "license_number" number_message f
    else f

unfoldable pub check_type : Entry → Found → Found
check_type v f = if is_given v && not (has_type v) then report "license_image" type_message f else f

unfoldable pub check_size : Entry → Found → Found
check_size v f = if is_given v && not (is_small v) then report "license_image" size_message f else f

unfoldable pub check_confirmed : Entry → Found → Found
check_confirmed v f = if is_given v then f else record {
  invalid_fields = f.invalid_fields ++ "confirm_info" ∷ [];
  custom_errors = f.custom_errors ++ confirm_message ∷ [];
}

-- what validate() of the third step finds
unfoldable pub license_found : (String → Entry) → Found
license_found at = check_confirmed (at "confirm_info") (
    check_size (at "license_image") (
      check_type (at "license_image")
        (check_number (at "license_number") (check_required at license_messages nothing_found))))

abbrev as_text : Entry → Entry
as_text (file mime size) = file mime size
as_text (js v) = text (to_text v)

-- Object.entries(formData).forEach(…)
unfoldable pub club_entries : Form → List (String × Entry)
club_entries [] = []
club_entries ((k, v) ∷ d) =
    let rest = club_entries d in if is_missing v then rest else (k, as_text v) ∷ rest

unfoldable pub club_messages : List (String × Js) → List String
club_messages [] = []
club_messages ((k, v) ∷ es) =
    (k <> ": " <> (if is_array v then join_items ", " (elements v) else to_text v))
    ∷ club_messages es

abbrev no_connection : Outcome
no_connection = failed_with (
    "\u{62e}\u{637}\u{627}\u{6cc} \u{627}\u{631}\u{62a}\u{628}\u{627}\u{637} \u{628}\u{627} \u{633}\u{631}\u{648}\u{631}. \u{644}\u{637}\u{641}\u{627}ً \u{627}\u{62a}\u{635}\u{627}\u{644} \u{62e}\u{648}\u{62f} \u{631}\u{627} \u{628}\u{631}\u{631}\u{633}\u{6cc} \u{6a9}\u{646}\u{6cc}\u{62f}."
    ∷ [])

unfoldable pub club_reply : ℕ → Js → Outcome
club_reply status v =
    if is_nullish v
    then no_connection
    else if is_ok status && is_text (get v "status") "ok"
    then succeeded (
        to_text (
          or_else (get v "message") (
            str
              "\u{628}\u{627}\u{634}\u{6af}\u{627}\u{647} \u{628}\u{627} \u{645}\u{648}\u{641}\u{642}\u{6cc}\u{62a} \u{62b}\u{628}\u{62a} \u{634}\u{62f} \u{648} \u{62f}\u{631} \u{627}\u{646}\u{62a}\u{638}\u{627}\u{631} \u{62a}\u{627}\u{6cc}\u{6cc}\u{62f} \u{647}\u{6cc}\u{626}\u{62a} \u{627}\u{633}\u{62a}\u{627}\u{646} \u{645}\u{6cc}\u{628}\u{627}\u{634}\u{62f}.")))
    else failed_with (club_messages (fields_in (or_else (get v "errors") (obj end))))

unfoldable pub received_club : Result Response → Outcome
received_club (err e) = no_connection
received_club (ok res) = elim res.json [ none ↦ no_connection | some v ↦ club_reply res.status v ]

-- handleSubmit() of the page
unfoldable pub submit_club : Send → Form → World → Outcome × World
submit_club send d w =
    let (r, w') = send (club_entries d) w in
    let out = received_club r in (out, if out.show_success then forget_phone w' else w')
