-- ===== src/Register/Place.antt =====
-- StepTwoPlayer.jsx and StepTwoCoach.jsx, which are the same: where a person lives, and the picture.
pub mod Laws
use Prim.Native.Char.{code}
use Prim.Native.String.{◌++◌ as ◌<>◌}
use tkd_chb.Base.{
  ℕ, ◌*◌, String, ◌==◌, Bool, true, false, not, ◌&&◌, ◌||◌, List, [], ◌∷◌, ◌++◌, ltb, leb, eqb,
  if◌then◌else◌,
}
use tkd_chb.Base.Text.{is_space, length_text}
use tkd_chb.Base.Digits.{is_digit}
use tkd_chb.Base.Js.{Js}
use tkd_chb.Register.{
  Entry, js, file, Form, field_of, set_entry, handle_data_change, is_given, text_in, text, has,
  push_once, all_of, is_arabic,
}

-- the fields that are wrong, and the messages
pub record Found : Type 0 where
  pub invalid_fields : List String
  pub custom_errors : List String

abbrev pub nothing_found : Found
nothing_found = record { invalid_fields = []; custom_errors = [] }

-- one more message, about a field
abbrev pub report : String → String → Found → Found
report k message f = record {
  invalid_fields = push_once k f.invalid_fields;
  custom_errors = f.custom_errors ++ message ∷ [];
}

-- required.forEach(…), with the message of each field
unfoldable pub check_required : (String → Entry) → List (String × String) → Found → Found
check_required at [] f = f
check_required at ((k, message) ∷ ks) f =
    check_required at ks (if is_given (at k) then f else report k message f)

abbrev pub place_messages : List (String × String)
place_messages =
    (
      "province",
      "\u{644}\u{637}\u{641}\u{627}ً \u{627}\u{633}\u{62a}\u{627}\u{646} \u{631}\u{627} \u{627}\u{646}\u{62a}\u{62e}\u{627}\u{628} \u{6a9}\u{646}\u{6cc}\u{62f}.",
    )
    ∷ (
      "county",
      "\u{644}\u{637}\u{641}\u{627}ً \u{634}\u{647}\u{631}\u{633}\u{62a}\u{627}\u{646} \u{631}\u{627} \u{627}\u{646}\u{62a}\u{62e}\u{627}\u{628} \u{6a9}\u{646}\u{6cc}\u{62f}.",
    )
    ∷ (
      "city",
      "\u{644}\u{637}\u{641}\u{627}ً \u{634}\u{647}\u{631} \u{631}\u{627} \u{627}\u{646}\u{62a}\u{62e}\u{627}\u{628} \u{6a9}\u{646}\u{6cc}\u{62f}.",
    )
    ∷ (
      "address",
      "\u{622}\u{62f}\u{631}\u{633} \u{646}\u{645}\u{6cc}\u{200c}\u{62a}\u{648}\u{627}\u{646}\u{62f} \u{62e}\u{627}\u{644}\u{6cc} \u{628}\u{627}\u{634}\u{62f}.",
    )
    ∷ (
      "profile_image",
      "\u{628}\u{627}\u{631}\u{6af}\u{630}\u{627}\u{631}\u{6cc} \u{639}\u{6a9}\u{633} \u{67e}\u{631}\u{633}\u{646}\u{644}\u{6cc} \u{627}\u{644}\u{632}\u{627}\u{645}\u{6cc} \u{627}\u{633}\u{62a}.",
    )
    ∷ []

-- faAddressRegex
unfoldable pub is_address_text : String → Bool
is_address_text s =
    all_of
      (λ c.
        is_arabic c
        || is_digit c
        || is_space c
        || eqb (code c) 0x60c
        || eqb (code c) 46
        || eqb (code c) 45)
      s

abbrev pub address_chars : String
address_chars =
    "\u{622}\u{62f}\u{631}\u{633} \u{634}\u{627}\u{645}\u{644} \u{6a9}\u{627}\u{631}\u{627}\u{6a9}\u{62a}\u{631} \u{63a}\u{6cc}\u{631}\u{645}\u{62c}\u{627}\u{632} \u{627}\u{633}\u{62a}."

abbrev pub address_length : String
address_length =
    "\u{622}\u{62f}\u{631}\u{633} \u{628}\u{627}\u{6cc}\u{62f} \u{628}\u{6cc}\u{646} ۱۰ \u{62a}\u{627} ۳۰۰ \u{6a9}\u{627}\u{631}\u{627}\u{6a9}\u{62a}\u{631} \u{628}\u{627}\u{634}\u{62f}."

abbrev pub picture_text : String
picture_text =
    "\u{639}\u{6a9}\u{633} \u{67e}\u{631}\u{633}\u{646}\u{644}\u{6cc} \u{628}\u{627}\u{6cc}\u{62f} JPG \u{648} \u{62d}\u{62f}\u{627}\u{6a9}\u{62b}\u{631} ۲۰۰ \u{6a9}\u{6cc}\u{644}\u{648}\u{628}\u{627}\u{6cc}\u{62a} \u{628}\u{627}\u{634}\u{62f}."

unfoldable pub check_address : Entry → Found → Found
check_address v f =
    if not (is_given v)
    then f
    else if not (is_address_text (text_in v))
    then report "address" address_chars f
    else if ltb (length_text (text_in v)) 10 || ltb 300 (length_text (text_in v))
    then report "address" address_length f
    else f

-- a picture of at most 200 KB of the types; what is no file has neither a type nor a size
abbrev pub is_picture : List String → Entry → Bool
is_picture types (file mime size) = has mime types && leb size (200 * 1024)
is_picture types (js v) = false

abbrev pub jpg_types : List String
jpg_types = "image/jpeg" ∷ "image/jpg" ∷ []

unfoldable pub check_picture : Entry → Found → Found
check_picture v f =
    if not (is_given v)
    then f
    else if is_picture jpg_types v
    then f
    else report "profile_image" picture_text f

-- what validate() finds
unfoldable pub place_found : (String → Entry) → Found
place_found at =
    check_picture (at "profile_image")
      (check_address (at "address") (check_required at place_messages nothing_found))

abbrev pub is_clean : List String → Bool
is_clean [] = true
is_clean (_ ∷ _) = false

pub record PlaceStep : Type 0 where
  pub found : Found
  pub show_error_modal : Bool

-- handleNext(), with whether it calls `onNext`
unfoldable pub handle_next_place : Form → PlaceStep × Bool
handle_next_place d =
    let f = place_found (field_of d) in
    (
      record { found = f; show_error_modal = not (is_clean f.custom_errors) },
      is_clean f.custom_errors,
    )

-- handleChange(e)
unfoldable pub handle_change_place : String → String → Form → Form
handle_change_place name value d =
    if name == "province"
    then handle_data_change
        (("province", text value) ∷ ("county", text "") ∷ ("city", text "") ∷ []) d
    else if name == "county"
    then handle_data_change (("county", text value) ∷ ("city", text "") ∷ []) d
    else set_entry name (text value) d

-- handleFileChange(e), with a file
unfoldable pub handle_file_change : String → ℕ → Form → Form
handle_file_change mime size d = set_entry "profile_image" (file mime size) d
