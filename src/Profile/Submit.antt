-- ===== src/Profile/Submit.antt =====
-- PersonalInfoForm.jsx: the confirmed edit is sent. `JSON.stringify` and the post of the FormData are
-- parameters, as is whether a text is no number.
use Prim.Native.String.{◌++◌ as ◌<>◌}
use tkd_chb.Base.{
  String, ◌==◌, Bool, true, false, not, ◌&&◌, Option, none, some, List, [], ◌∷◌, ◌++◌,
  if◌then◌else◌,
}
use tkd_chb.Base.Text.{join}
use tkd_chb.Base.Js.{
  Js, undefined, null, bool, nan, num, str, object, is_text, is_array, is_object, elements, or_else,
  get, to_text, join_items,
}
use tkd_chb.Net.{World}
use tkd_chb.Axios.{Answer, resolved, rejected, Rejection}
use tkd_chb.Register.{
  Entry, js, file, Form, field_of, set_entry, handle_data_change, is_given, text,
}
use tkd_chb.Register.Coach.{value_in}
use tkd_chb.Register.Coach.Submit.{fields_in}
use tkd_chb.Profile.{
  Item, Dropdowns, keyed, or_empty, Info, referee_kinds, validate_referee_levels, is_file,
}

abbrev pub Post : Type 0
Post = List (String × Entry) → World → Answer × World

abbrev pub NotNumber : Type 0
NotNumber = String → Bool

abbrev find_label : String → List Item → Option Item
find_label label [] = none
find_label label (i ∷ is) = if is_text i.label label then some i else find_label label is

abbrev id_or : Entry → Option Item → Entry
id_or v none = v
id_or v (some i) = js i.value

-- the club: a label becomes its id
unfoldable pub club_value : NotNumber → Dropdowns → Entry → Entry
club_value not_number ds (js (str s)) =
    if not (s == "") && not_number s
    then id_or (js (str s)) (find_label s (or_empty (keyed ds "club")))
    else js (str s)
club_value not_number ds v = v

-- completeData
unfoldable pub complete_data : NotNumber → Info → Form
complete_data not_number p =
    let d = handle_data_change p.person p.original in
    if is_given (field_of d "club")
    then set_entry "club" (club_value not_number p.dropdowns (field_of d "club")) d
    else d

abbrev bool_text : Bool → String
bool_text b = if b then "true" else "false"

-- what the loop appends for one field
unfoldable pub appended : String → Entry → List (String × Entry)
appended k (file mime size) = if k == "profile_image" then (k, file mime size) ∷ [] else []
appended k (js (bool b)) = if k == "profile_image" then [] else (k, text (bool_text b)) ∷ []
appended k (js (num n)) = if k == "profile_image" then [] else (k, text (to_text (num n))) ∷ []
appended k (js nan) = if k == "profile_image" then [] else (k, text (to_text nan)) ∷ []
appended k (js (str s)) = if k == "profile_image" then [] else (k, text s) ∷ []
appended k (js v) = []

-- for (const key in completeData)
unfoldable pub plain_fields : Form → List (String × Entry)
plain_fields [] = []
plain_fields ((k, v) ∷ d) = appended k v ++ plain_fields d

abbrev grade_of : Entry → Js
grade_of v = or_else (value_in v) null

abbrev international : Entry → List (String × Js)
international v = if is_given v then ("gradeIntl", value_in v) ∷ [] else []

-- refereeTypes
unfoldable pub referee_object : Form → List String → List (String × Js)
referee_object d [] = []
referee_object d (type ∷ types) =
    let rest = referee_object d types in
    if is_given (field_of d type)
    then (
      type,
      object (
          ("selected", bool true)
          ∷ ("gradeNational", grade_of (field_of d (type <> "_level")))
          ∷ international (field_of d (type <> "_level_International"))),
    )
      ∷ rest
    else rest

unfoldable pub flags : Form → List String → List (String × Entry)
flags d [] = []
flags d (k ∷ ks) = (k, text (bool_text (is_given (field_of d k)))) ∷ flags d ks

abbrev if_given : Form → String → List (String × Entry)
if_given d k =
    if is_given (field_of d k) then (k, text (to_text (value_in (field_of d k)))) ∷ [] else []

-- the FormData of the edit
unfoldable pub edit_fields : (Js → String) → Form → List (String × Entry)
edit_fields stringify d =
    plain_fields d
    ++ (("refereeTypes", text (stringify (object (referee_object d referee_kinds))))
        ∷ flags d (referee_kinds ++ "is_referee" ∷ []))
    ++ if_given d "id"
    ++ if_given d "user"

-- placeholders
abbrev pub placeholders : List (String × String)
placeholders =
    ("profile_image", "\u{639}\u{6a9}\u{633} \u{67e}\u{631}\u{648}\u{641}\u{627}\u{6cc}\u{644}")
    ∷ ("first_name", "\u{646}\u{627}\u{645}")
    ∷ (
      "last_name", "\u{646}\u{627}\u{645} \u{62e}\u{627}\u{646}\u{648}\u{627}\u{62f}\u{6af}\u{6cc}",
    )
    ∷ ("father_name", "\u{646}\u{627}\u{645} \u{67e}\u{62f}\u{631}")
    ∷ ("birth_date", "\u{62a}\u{627}\u{631}\u{6cc}\u{62e} \u{62a}\u{648}\u{644}\u{62f}")
    ∷ ("national_code", "\u{6a9}\u{62f} \u{645}\u{644}\u{6cc}")
    ∷ ("phone", "\u{634}\u{645}\u{627}\u{631}\u{647} \u{645}\u{648}\u{628}\u{627}\u{6cc}\u{644}")
    ∷ ("province", "\u{627}\u{633}\u{62a}\u{627}\u{646}")
    ∷ ("address", "\u{622}\u{62f}\u{631}\u{633}")
    ∷ ("county", "\u{634}\u{647}\u{631}\u{633}\u{62a}\u{627}\u{646}")
    ∷ ("city", "\u{634}\u{647}\u{631}")
    ∷ (
      "tkd_board", "\u{647}\u{6cc}\u{626}\u{62a} \u{62a}\u{6a9}\u{648}\u{627}\u{646}\u{62f}\u{648}",
    )
    ∷ ("club", "\u{628}\u{627}\u{634}\u{6af}\u{627}\u{647}")
    ∷ ("coach", "\u{645}\u{631}\u{628}\u{6cc}")
    ∷ ("belt_grade", "\u{62f}\u{631}\u{62c}\u{647} \u{6a9}\u{645}\u{631}\u{628}\u{646}\u{62f}")
    ∷ (
      "belt_certificate_date",
      "\u{62a}\u{627}\u{631}\u{6cc}\u{62e} \u{627}\u{62e}\u{630} \u{6a9}\u{645}\u{631}\u{628}\u{646}\u{62f}",
    )
    ∷ ("belt_certificate_number", "\u{634}\u{645}\u{627}\u{631}\u{647} \u{62d}\u{6a9}\u{645}")
    ∷ (
      "coach_level",
      "\u{62f}\u{631}\u{62c}\u{647} \u{645}\u{644}\u{6cc} \u{645}\u{631}\u{628}\u{6cc}\u{6af}\u{631}\u{6cc}",
    )
    ∷ (
      "coach_level_International",
      "\u{62f}\u{631}\u{62c}\u{647} \u{628}\u{6cc}\u{646}\u{200c}\u{627}\u{644}\u{645}\u{644}\u{644}\u{6cc} \u{645}\u{631}\u{628}\u{6cc}\u{6af}\u{631}\u{6cc}",
    )
    ∷ (
      "kyorogi_level",
      "\u{62f}\u{631}\u{62c}\u{647} \u{645}\u{644}\u{6cc} \u{6a9}\u{6cc}\u{648}\u{631}\u{648}\u{6af}\u{6cc}",
    )
    ∷ (
      "kyorogi_level_International",
      "\u{62f}\u{631}\u{62c}\u{647} \u{628}\u{6cc}\u{646}\u{200c}\u{627}\u{644}\u{645}\u{644}\u{644}\u{6cc} \u{6a9}\u{6cc}\u{648}\u{631}\u{648}\u{6af}\u{6cc}",
    )
    ∷ (
      "poomseh_level",
      "\u{62f}\u{631}\u{62c}\u{647} \u{645}\u{644}\u{6cc} \u{67e}\u{648}\u{645}\u{633}\u{647}",
    )
    ∷ (
      "poomseh_level_International",
      "\u{62f}\u{631}\u{62c}\u{647} \u{628}\u{6cc}\u{646}\u{200c}\u{627}\u{644}\u{645}\u{644}\u{644}\u{6cc} \u{67e}\u{648}\u{645}\u{633}\u{647}",
    )
    ∷ (
      "hanmadang_level",
      "\u{62f}\u{631}\u{62c}\u{647} \u{645}\u{644}\u{6cc} \u{647}\u{627}\u{646}\u{645}\u{627}\u{62f}\u{627}\u{646}\u{6af}",
    )
    ∷ (
      "hanmadang_level_International",
      "\u{62f}\u{631}\u{62c}\u{647} \u{628}\u{6cc}\u{646}\u{200c}\u{627}\u{644}\u{645}\u{644}\u{644}\u{6cc} \u{647}\u{627}\u{646}\u{645}\u{627}\u{62f}\u{627}\u{646}\u{6af}",
    )
    ∷ []

abbrev name_or : String → Option String → String
name_or k none = k
name_or k (some t) = t

unfoldable pub field_messages : List (String × Js) → List String
field_messages [] = []
field_messages ((k, v) ∷ es) =
    (name_or k (keyed placeholders k)
      <> ": "
      <> (if is_array v then join_items ", " (elements v) else to_text v))
    ∷ field_messages es

abbrev pub errors_of : Option Rejection → Js
errors_of none = undefined
errors_of (some r) = get r.data_sent "errors"

-- the text that a failure shows
unfoldable pub failure_message : Option Rejection → String
failure_message e =
    if is_object (errors_of e)
    then "⚠\u{fe0f} \u{62e}\u{637}\u{627} \u{62f}\u{631} \u{628}\u{631}\u{62e}\u{6cc} \u{641}\u{6cc}\u{644}\u{62f}\u{647}\u{627}:\n\n"
      <> join "\n" (field_messages (fields_in (errors_of e)))
    else "⚠\u{fe0f} \u{62e}\u{637}\u{627} \u{62f}\u{631} \u{62b}\u{628}\u{62a} \u{627}\u{637}\u{644}\u{627}\u{639}\u{627}\u{62a}. \u{644}\u{637}\u{641}\u{627}ً \u{62f}\u{648}\u{628}\u{627}\u{631}\u{647} \u{62a}\u{644}\u{627}\u{634} \u{6a9}\u{646}\u{6cc}\u{62f}."

abbrev pub edit_saved : String
edit_saved =
    "\u{627}\u{637}\u{644}\u{627}\u{639}\u{627}\u{62a} \u{628}\u{627} \u{645}\u{648}\u{641}\u{642}\u{6cc}\u{62a} \u{62b}\u{628}\u{62a} \u{634}\u{62f} \u{648} \u{67e}\u{633} \u{627}\u{632} \u{62a}\u{623}\u{6cc}\u{6cc}\u{62f} \u{647}\u{6cc}\u{626}\u{62a} \u{627}\u{639}\u{645}\u{627}\u{644} \u{645}\u{6cc}\u{200c}\u{634}\u{648}\u{62f}."

-- the reply; after a picture the page is loaded again
unfoldable pub edited : Answer → Info → Info
edited (rejected e) p = record p { modal_message = failure_message e }
edited (resolved v) p =
    if is_file (field_of p.person "profile_image")
    then record p { modal_message = edit_saved; reloads = true }
    else record p { modal_message = edit_saved; original = p.person }

abbrev pub sending : Info → Info
sending p = record p { show_confirm_modal = false; is_submitting = true }

-- onClick of the confirmation
unfoldable pub submit_edit : Post → (Js → String) → NotNumber → Info → World → Info × World
submit_edit post stringify not_number p w =
    let (q, passed) = validate_referee_levels p in
    let (r, w') = post (edit_fields stringify (complete_data not_number p)) w in
    if passed then (record (edited r (sending p)) { is_submitting = false }, w') else (q, w)
