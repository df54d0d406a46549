-- ===== src/Details/Submit.antt =====
-- CompetitionDetails.jsx: opening the forms, submitting them, the card and the coach's code.
-- A handler takes the page and the world and gives them back; `went` are the navigations and
-- `alerts` the messages, the first one first.
pub mod Laws
use Prim.Native.String.{◌++◌ as ◌<>◌}
use tkd_chb.Base.{
  ℕ, String, ◌==◌, Bool, true, false, not, ◌&&◌, ◌||◌, Option, none, some, List, [], ◌∷◌, ◌++◌,
  if◌then◌else◌,
}
use tkd_chb.Base.Text.{trim, encode_uri_component}
use tkd_chb.Base.Digits.{normalize_digits, sanitize_weight}
use tkd_chb.Base.Js.{
  Js, undefined, null, bool, str, obj, field, end, truthy, coalesce, or_else, get, is_array,
  elements, join_items, to_text,
}
use tkd_chb.Base.Exec.{Failure, Result, ok, err}
use tkd_chb.Net.{Server, World}
use tkd_chb.Api.Endpoints.{
  register_self, register_self_poomsae, get_register_self_prefill, build_poomsae_prefill,
  get_coach_approval_status, get_poomsae_coach_approval_status, approve_competition,
  approve_poomsae_competition, get_my_enrollment, get_my_poomsae_enrollments,
}
use tkd_chb.Details.Eligibility.{Discipline, kyorugi, poomsae, one_of}
use tkd_chb.Details.Locked.{
  normalize_locked_profile, merge_locked_profiles, locked_from_competition,
}
use tkd_chb.Details.Form.{
  Picker, Errors, Form, issue_key, validate_ky, validate_po, jalali_input_to_iso,
}

pub record CardInfo : Type 0 where
  pub loading : Bool
  pub checked : Bool
  pub enrollment_id : Js
  pub status : Js
  pub can_show : Bool

pub record CodeModal : Type 0 where
  pub opened : Bool
  pub loading : Bool
  pub code : Js
  pub approved : Bool
  pub error : String

pub record View : Type 0 where
  pub reg : Form
  pub reg_p : Form
  pub card : CardInfo
  pub code_modal : CodeModal
  pub went : List String
  pub alerts : List String

-- e.message || text
abbrev pub message_or : Failure → String → String
message_or e text = if e.message == "" then text else e.message

-- Array.isArray(v) ? v.join(" ") : String(v)
abbrev pub joined_text : Js → String
joined_text v = if is_array v then join_items " " (elements v) else to_text v

abbrev pub mapped_one : Js → String → String → Errors → Errors
mapped_one p key name rest =
    if truthy (get p key) then (name, joined_text (get p key)) ∷ rest else rest

abbrev is_given_list : Js → Bool
is_given_list v = is_array v && not (elements_blank (elements v))
  where
    elements_blank : List Js → Bool
    elements_blank [] = true
    elements_blank (_ ∷ _) = false

-- mapped.__all__ of kyorugi, from both lists
unfoldable pub all_errors : Js → Errors
all_errors p =
    if is_given_list (get p "non_field_errors")
    then (
      "__all__",
      if is_given_list (get p "__all__")
          then (let first = join_items " " (elements (get p "non_field_errors")) in
              (if first == "" then "" else first <> " ")
              <> join_items " " (elements (get p "__all__")))
          else join_items " " (elements (get p "non_field_errors")),
    )
      ∷ []
    else if is_given_list (get p "__all__")
    then ("__all__", join_items " " (elements (get p "__all__"))) ∷ []
    else []

unfoldable pub non_field : Js → Errors
non_field p =
    if is_given_list (get p "non_field_errors")
    then ("__all__", join_items " " (elements (get p "non_field_errors"))) ∷ []
    else []

abbrev pub or_fallback : Errors → String → Errors
or_fallback [] text = ("__all__", text) ∷ []
or_fallback (x ∷ xs) text = x ∷ xs

abbrev payload_of : Failure → Js
payload_of e = or_else e.payload (obj end)

-- p.detail || e2.message || "…"
abbrev pub fallback_text : Failure → String
fallback_text e = to_text (
    or_else (get (payload_of e) "detail") (
      str (
        message_or e
          "\u{62e}\u{637}\u{627}\u{6cc} \u{646}\u{627}\u{645}\u{634}\u{62e}\u{635} \u{62f}\u{631} \u{62b}\u{628}\u{62a}\u{200c}\u{646}\u{627}\u{645}")))

unfoldable pub server_errors_ky : Failure → Errors
server_errors_ky e =
    let p = payload_of e in
    or_fallback
      (mapped_one p "coach_code" "coach_code" (
        mapped_one p "declared_weight" "weight" (
          mapped_one p "insurance_number" "insurance_number"
            (mapped_one p "insurance_issue_date" issue_key (all_errors p)))))
      (fallback_text e)

unfoldable pub server_errors_po : Failure → Errors
server_errors_po e =
    let p = payload_of e in
    or_fallback
      (mapped_one p "coach_code" "coach_code" (
        mapped_one p "poomsae_type" "poomsae_type" (
          mapped_one p "insurance_number" "insurance_number"
            (mapped_one p "insurance_issue_date" issue_key (non_field p)))))
      (fallback_text e)

-- normalizeDigits(x || "").trim()
abbrev pub clean_digits : Js → String
clean_digits v = trim (normalize_digits (to_text (or_else v (str ""))))

-- … || undefined
abbrev pub text_or_undefined : String → Js
text_or_undefined s = if s == "" then undefined else str s

unfoldable pub payload_ky : Form → String → Js
payload_ky reg iso = obj (
    field "coach_code" (text_or_undefined (clean_digits reg.coach_code)) (
      field "declared_weight" (str (sanitize_weight (to_text (or_else reg.weight (str ""))))) (
        field "insurance_number" (str (clean_digits reg.insurance_number))
          (field issue_key (str iso) end))))

unfoldable pub payload_po : Form → String → Js
payload_po reg iso = obj (
    field "coach_code" (text_or_undefined (clean_digits reg.coach_code)) (
      field "poomsae_type" reg.poomsae_type (
        field "insurance_number" (str (clean_digits reg.insurance_number))
          (field issue_key (str iso) end))))

abbrev pub enrollment_of : Js → Js
enrollment_of res =
    coalesce (get res "enrollment_id") (coalesce (get (get res "data") "enrollment_id") null)

abbrev pub status_of : Js → String → Js
status_of res default =
    coalesce (get res "status") (coalesce (get (get res "data") "status") (str default))

abbrev pub card_path : String → Js → String
card_path role eid =
    "/dashboard/" <> encode_uri_component role <> "/enrollments/" <> to_text eid <> "/card"

abbrev pub is_paid : Js → Bool
is_paid st = one_of (to_text st) ("paid" ∷ "confirmed" ∷ [])

-- st === text
abbrev pub is_word : Js → String → Bool
is_word (str s) t = s == t
is_word _ t = false

abbrev pub registered_text : String
registered_text =
    "✅ \u{62b}\u{628}\u{62a}\u{200c}\u{646}\u{627}\u{645} \u{627}\u{646}\u{62c}\u{627}\u{645} \u{634}\u{62f}. \u{645}\u{6cc}\u{200c}\u{62a}\u{648}\u{627}\u{646}\u{6cc}\u{62f} \u{622}\u{6cc}\u{62f}\u{6cc} \u{6a9}\u{627}\u{631}\u{62a} \u{631}\u{627} \u{628}\u{628}\u{6cc}\u{646}\u{6cc}\u{62f}. \u{627}\u{6af}\u{631} \u{67e}\u{631}\u{62f}\u{627}\u{62e}\u{62a} \u{62a}\u{6a9}\u{645}\u{6cc}\u{644} \u{646}\u{628}\u{627}\u{634}\u{62f}، \u{6a9}\u{627}\u{631}\u{62a} \u{628}\u{627} \u{647}\u{634}\u{62f}\u{627}\u{631}/\u{67e}\u{6cc}\u{634}\u{200c}\u{646}\u{645}\u{627}\u{6cc}\u{634} \u{646}\u{645}\u{627}\u{6cc}\u{634} \u{62f}\u{627}\u{62f}\u{647} \u{645}\u{6cc}\u{200c}\u{634}\u{648}\u{62f}."

abbrev pub go : String → View → View
go path view = record view { went = view.went ++ path ∷ [] }

abbrev pub say : String → View → View
say text view = record view { alerts = view.alerts ++ text ∷ [] }

abbrev pub shown : Js → Js → CardInfo → CardInfo
shown eid st card = record {
  loading = false;
  checked = true;
  enrollment_id = or_else eid card.enrollment_id;
  status = st;
  can_show = true;
}

unfoldable pub registered_ky : String → Js → View → View
registered_ky role res view =
    let eid = enrollment_of res in
    let st = status_of res "pending_payment" in
    let closed = record view {
      reg = record view.reg { loading = false; opened = false };
      card = shown eid st view.card;
    } in
    if is_paid st then go (card_path role eid) closed else say registered_text closed

unfoldable pub registered_po : String → Js → View → View
registered_po role res view =
    let eid = enrollment_of res in
    let st = status_of res "paid" in
    let closed = record view { reg_p = record view.reg_p { loading = false; opened = false } } in
    if truthy eid && (is_word st "paid" || is_word st "confirmed")
    then go (card_path role eid) closed
    else say
        ("\u{62b}\u{628}\u{62a} \u{634}\u{62f}. \u{648}\u{636}\u{639}\u{6cc}\u{62a}: "
          <> to_text st)
        closed

abbrev pub finish_ky : String → Result Js → View → View
finish_ky role (ok res) view = registered_ky role res view
finish_ky role (err e) view = record view {
  reg = record view.reg { loading = false; errors = server_errors_ky e };
}

abbrev pub finish_po : String → Result Js → View → View
finish_po role (ok res) view = registered_po role res view
finish_po role (err e) view = record view {
  reg_p = record view.reg_p { loading = false; errors = server_errors_po e };
}

abbrev pub bad_date : Errors
bad_date =
    (
      issue_key,
      "\u{62a}\u{627}\u{631}\u{6cc}\u{62e} \u{646}\u{627}\u{645}\u{639}\u{62a}\u{628}\u{631} \u{627}\u{633}\u{62a}.",
    )
    ∷ []

module _ (server : Server) (base : String) (slug : Js) (role : String) (picker : Picker)
    (day : Option ℕ) where
  unfoldable pub send_ky : String → View → World → View × World
  send_ky iso view w =
      let (r, w') = register_self server base slug (payload_ky view.reg iso) w in
      (finish_ky role r (record view { reg = record view.reg { loading = true; errors = [] } }), w')

  unfoldable pub checked_ky : Errors → View → World → View × World
  checked_ky (x ∷ xs) view w = (record view { reg = record view.reg { errors = x ∷ xs } }, w)
  checked_ky [] view w =
      let iso = jalali_input_to_iso picker view.reg.insurance_issue_date in
      if iso == ""
      then (record view { reg = record view.reg { loading = false; errors = bad_date } }, w)
      else send_ky iso view w

  -- submitRegister
  unfoldable pub submit_register : View → World → View × World
  submit_register view w = checked_ky (validate_ky picker day view.reg) view w

  unfoldable pub send_po : String → View → World → View × World
  send_po iso view w =
      let (r, w') = register_self_poomsae server base slug (payload_po view.reg_p iso) w in
      (
        finish_po role r
            (record view { reg_p = record view.reg_p { loading = true; errors = [] } }),
        w',
      )

  unfoldable pub checked_po : Errors → View → World → View × World
  checked_po (x ∷ xs) view w = (record view { reg_p = record view.reg_p { errors = x ∷ xs } }, w)
  checked_po [] view w =
      let iso = jalali_input_to_iso picker view.reg_p.insurance_issue_date in
      if iso == ""
      then (record view { reg_p = record view.reg_p { loading = false; errors = bad_date } }, w)
      else send_po iso view w

  -- submitRegisterPoomsae
  unfoldable pub submit_register_poomsae : View → World → View × World
  submit_register_poomsae view w = checked_po (validate_po picker day view.reg_p) view w
