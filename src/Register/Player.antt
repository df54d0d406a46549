-- ===== src/Register/Player.antt =====
-- RegisterplayerPage.jsx and StepThreePlayer.jsx: the registration of a player.
pub mod Laws
use Prim.Native.String.{◌++◌ as ◌<>◌}
use tkd_chb.Base.{
  ℕ, String, ◌==◌, Bool, true, false, not, ◌||◌, Option, none, some, List, [], ◌∷◌, ◌++◌,
  if◌then◌else◌,
}
use tkd_chb.Base.Js.{
  is_text, Js, undefined, null, bool, str, array, obj, end, truthy, or_else, get, elements, values,
  is_nullish, to_text,
}
use tkd_chb.Base.Exec.{Result, ok, err}
use tkd_chb.Net.{Response, World, is_ok}
use tkd_chb.Axios.{Answer, resolved, rejected, Axios, axios_get}
use tkd_chb.Details.Form.{Errors, when}
use tkd_chb.Register.{
  Entry, js, Form, field_of, set_entry, is_given, text_in, text, is_slashed_number,
}
use tkd_chb.Register.Submit.{Send, form_entries, Outcome, failed_with, succeeded, forget_phone}

abbrev blank : List String → Form
blank [] = []
blank (k ∷ ks) = (k, text "") ∷ blank ks

abbrev pub switched_off : List String → Form
switched_off [] = []
switched_off (k ∷ ks) = (k, js (bool false)) ∷ switched_off ks

-- the formData of a player (RegisterplayerPage) and of a coach (RegisterCoachPage), which differ in two
-- fields
unfoldable pub initial_form : Bool → String → String → Form
initial_form is_coach role phone =
    blank (
      "first_name" ∷ "last_name" ∷ "father_name" ∷ "national_code" ∷ "birth_date" ∷ "gender"
      ∷ "province" ∷ "county" ∷ "city" ∷ "address" ∷ "tkd_board" ∷ "belt_grade"
      ∷ "belt_certificate_number" ∷ "belt_certificate_date" ∷ [])
    ++ (("is_coach", js (bool is_coach)) ∷ [])
    ++ blank ("coach_level" ∷ "coach_level_International" ∷ [])
    ++ switched_off ("is_referee" ∷ "kyorogi" ∷ "poomseh" ∷ "hanmadang" ∷ [])
    ++ blank (
        "kyorogi_level" ∷ "kyorogi_level_International" ∷ "poomseh_level"
        ∷ "poomseh_level_International" ∷ "hanmadang_level" ∷ "hanmadang_level_International" ∷ [])
    ++ (("club_names", js (array []))
        ∷ ("profile_image", js null)
        ∷ ("phone", text phone)
        ∷ ("role", text role)
        ∷ [])
    ++ blank ("coachGradeNational" ∷ "coachGradeIntl" ∷ [])
    ++ (("refereeTypes", js (obj end)) ∷ ("selectedClubs", js (array [])) ∷ [])
    ++ blank
        ("coach" ∷ "coachFullName" ∷ "customCoachName" ∷ "belt" ∷ "beltNumber" ∷ "beltDate" ∷ [])
    ++ (("confirmInfo", js (bool false)) ∷ [])

pub record PlayerStep : Type 0 where
  pub clubs : List Js
  pub coaches : List Js
  pub heyats : List Js
  pub belt_choices : List Js
  pub errors : Errors
  pub show_error_modal : Bool
  pub modal_error_text : String

abbrev list_in : Js → String → List Js
list_in v k = elements (get v k)

abbrev options_received : Answer → PlayerStep → PlayerStep
options_received (resolved v) p = record p {
  heyats = list_in v "heyats";
  clubs = list_in v "clubs";
  coaches = list_in v "coaches";
  belt_choices = list_in v "belt_choices";
}
options_received (rejected e) p = p

-- the effect on the gender
unfoldable pub load_options : Axios → Form → PlayerStep → World → PlayerStep × World
load_options axios d p w =
    let gender = field_of d "gender" in
    let (r, w') =
      axios
        (axios_get ("http://localhost:8000/api/auth/form-data-player/?gender=" <> text_in gender)
          [])
        w in
    if is_given gender then (options_received r p, w') else (p, w)

abbrev coaches_received : Answer → PlayerStep → PlayerStep
coaches_received (resolved v) p = record p { coaches = list_in v "coaches" }
coaches_received (rejected e) p = record p { coaches = [] }

-- the effect on the club and the gender
unfoldable pub load_coaches : Axios → Form → PlayerStep → World → Form × PlayerStep × World
load_coaches axios d p w =
    let club = field_of d "club" in
    let gender = field_of d "gender" in
    let (r, w') =
      axios
        (axios_get
          ("http://localhost:8000/api/auth/coaches/?club="
            <> text_in club
            <> "&gender="
            <> text_in gender)
          [])
        w in
    if not (is_given club) || not (is_given gender)
    then (set_entry "coach" (text "") d, record p { coaches = [] }, w)
    else (d, coaches_received r p, w')

-- handleChange(e)
unfoldable pub handle_change_player : String → String → Form → Form
handle_change_player name value d = set_entry name (text value) d

-- newErrors of validate()
unfoldable pub player_errors : (String → Entry) → Errors
player_errors at =
    when (not (is_given (at "tkd_board"))) "tkd_board"
      "\u{644}\u{637}\u{641}\u{627}ً \u{647}\u{6cc}\u{626}\u{62a} \u{631}\u{627} \u{627}\u{646}\u{62a}\u{62e}\u{627}\u{628} \u{6a9}\u{646}\u{6cc}\u{62f}"
      (when (not (is_given (at "club"))) "club"
        "\u{644}\u{637}\u{641}\u{627}ً \u{6cc}\u{6a9} \u{628}\u{627}\u{634}\u{6af}\u{627}\u{647} \u{627}\u{646}\u{62a}\u{62e}\u{627}\u{628} \u{6a9}\u{646}\u{6cc}\u{62f}"
        (when (not (is_given (at "coach"))) "coach"
          "\u{644}\u{637}\u{641}\u{627}ً \u{645}\u{631}\u{628}\u{6cc} \u{631}\u{627} \u{627}\u{646}\u{62a}\u{62e}\u{627}\u{628} \u{6a9}\u{646}\u{6cc}\u{62f}"
          (when (not (is_given (at "belt_grade"))) "belt_grade"
            "\u{644}\u{637}\u{641}\u{627}ً \u{62f}\u{631}\u{62c}\u{647} \u{6a9}\u{645}\u{631}\u{628}\u{646}\u{62f} \u{631}\u{627} \u{627}\u{646}\u{62a}\u{62e}\u{627}\u{628} \u{6a9}\u{646}\u{6cc}\u{62f}"
            (when (not (is_slashed_number (text_in (at "belt_certificate_number"))))
              "belt_certificate_number"
              "\u{634}\u{645}\u{627}\u{631}\u{647} \u{62d}\u{6a9}\u{645} \u{641}\u{642}\u{637} \u{634}\u{627}\u{645}\u{644} \u{639}\u{62f}\u{62f} \u{648} / \u{628}\u{627}\u{634}\u{62f}"
              (when (not (is_given (at "belt_certificate_date"))) "belt_certificate_date"
                "\u{644}\u{637}\u{641}\u{627}ً \u{62a}\u{627}\u{631}\u{6cc}\u{62e} \u{62d}\u{6a9}\u{645} \u{631}\u{627} \u{648}\u{627}\u{631}\u{62f} \u{6a9}\u{646}\u{6cc}\u{62f}"
                (when (not (is_given (at "confirm_info"))) "confirm_info"
                  "\u{62a}\u{623}\u{6cc}\u{6cc}\u{62f} \u{635}\u{62d}\u{62a} \u{627}\u{637}\u{644}\u{627}\u{639}\u{627}\u{62a} \u{627}\u{644}\u{632}\u{627}\u{645}\u{6cc} \u{627}\u{633}\u{62a}"
                  []))))))

-- validate() of a step that shows the first of its errors
abbrev pub shown : Errors → PlayerStep → PlayerStep × Bool
shown [] p = (record p { errors = [] }, true)
shown ((k, message) ∷ es) p = (
  record p { errors = (k, message) ∷ es; modal_error_text = message; show_error_modal = true },
  false,
)

abbrev first_of : List Js → Js
first_of [] = undefined
first_of (v ∷ vs) = v

abbrev no_connection : Outcome
no_connection = failed_with (
    "\u{62e}\u{637}\u{627} \u{62f}\u{631} \u{627}\u{62a}\u{635}\u{627}\u{644} \u{628}\u{647} \u{633}\u{631}\u{648}\u{631}."
    ∷ [])

unfoldable pub player_reply : Response → Js → Outcome
player_reply res v =
    if is_nullish v
    then no_connection
    else if not (is_ok res.status)
    then failed_with (
        to_text (
          or_else (first_of (values (get v "errors"))) (
            or_else (get v "message") (
              str
                "\u{62e}\u{637}\u{627}\u{6cc}\u{6cc} \u{631}\u{62e} \u{62f}\u{627}\u{62f}\u{647} \u{627}\u{633}\u{62a}.")))
        ∷ [])
    else if is_text (get v "status") "ok"
    then succeeded (
        to_text (
          or_else (get v "message") (
            str
              "\u{627}\u{637}\u{644}\u{627}\u{639}\u{627}\u{62a} \u{634}\u{645}\u{627} \u{628}\u{627} \u{645}\u{648}\u{641}\u{642}\u{6cc}\u{62a} \u{62b}\u{628}\u{62a} \u{648} \u{62f}\u{631} \u{627}\u{646}\u{62a}\u{638}\u{627}\u{631} \u{62a}\u{627}ً\u{6cc}\u{6cc}\u{62f} \u{647}\u{6cc}\u{626}\u{62a} \u{627}\u{633}\u{62a}\u{627}\u{646} \u{645}\u{6cc}\u{628}\u{627}\u{634}\u{62f}")))
    else failed_with (
        to_text (
          or_else (get v "message") (
            str
              "\u{62e}\u{637}\u{627}\u{6cc}\u{6cc} \u{62f}\u{631} \u{62b}\u{628}\u{62a}\u{200c}\u{646}\u{627}\u{645} \u{631}\u{62e} \u{62f}\u{627}\u{62f}."))
        ∷ [])

unfoldable pub received_player : Result Response → Outcome
received_player (err e) = no_connection
received_player (ok res) = elim res.json [ none ↦ no_connection | some v ↦ player_reply res v ]

-- handleSubmit() of the page; a success forgets the phone
unfoldable pub submit_player : Send → (Js → String) → Form → World → Outcome × World
submit_player send stringify d w =
    let (r, w') = send (form_entries stringify d) w in
    let out = received_player r in (out, if out.show_success then forget_phone w' else w')

-- handleSubmit() of the step: the page submits only what validate() accepts
unfoldable pub handle_submit_player :
    Send → (Js → String) → Form → PlayerStep → World → PlayerStep × Option Outcome × World
handle_submit_player send stringify d p w =
    let (p', passed) = shown (player_errors (field_of d)) p in
    let (out, w') = submit_player send stringify d w in
    if passed then (p', some out, w') else (p', none, w)
