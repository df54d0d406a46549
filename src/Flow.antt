-- ===== src/Flow.antt =====
-- CoachAgreementFlow.jsx: a coach accepts the terms of a competition and receives a code. The window
-- stays open while a request is on its way, so that `alive` is true; the pause of 200 ms before the
-- status is asked again is left out.
pub mod Laws
mod Examples
use Prim.Native.String.{◌++◌ as ◌<>◌}
use tkd_chb.Base.{
  String, ◌==◌, Bool, true, false, not, ◌&&◌, ◌||◌, Option, none, some, List, [], ◌∷◌, ◌++◌, any,
  if◌then◌else◌,
}
use tkd_chb.Base.Text.{trim, includes, to_lower_case, encode_uri_component}
use tkd_chb.Base.Js.{Js, null, str, truthy, or_else, get, is_array, elements, to_text}
use tkd_chb.Base.Exec.{Result, ok, err}
use tkd_chb.Storage.{Storage}
use tkd_chb.Net.{Server, World}
use tkd_chb.Session.{user_role}
use tkd_chb.Api.Roles.{current_role}
use tkd_chb.Api.Endpoints.{
  get_competition_terms, get_coach_approval_status, get_poomsae_coach_approval_status,
  approve_competition, approve_poomsae_competition,
}
use tkd_chb.Details.Submit.{message_or}

pub data Step : Type 0 where
  at_terms at_code : Step

pub record Flow : Type 0 where
  pub loading : Bool
  pub step : Step
  pub approved : Bool
  pub code : Js
  pub coach_name : Js
  pub club_names : List Js
  pub terms_title : String
  pub terms : String
  pub checked : Bool
  pub submitting : Bool
  pub error : String
  pub went : List String
  pub alerts : List String

abbrev pub terms_name : String
terms_name = "\u{62a}\u{639}\u{647}\u{62f}\u{646}\u{627}\u{645}\u{647} \u{645}\u{631}\u{628}\u{6cc}"

abbrev pub terms_text : String
terms_text =
    "\u{628}\u{627} \u{67e}\u{630}\u{6cc}\u{631}\u{634} \u{627}\u{6cc}\u{646} \u{62a}\u{639}\u{647}\u{62f}\u{646}\u{627}\u{645}\u{647}، \u{645}\u{633}\u{626}\u{648}\u{644}\u{6cc}\u{62a}\u{200c}\u{647}\u{627}\u{6cc} \u{645}\u{631}\u{628}\u{6cc}/\u{646}\u{645}\u{627}\u{6cc}\u{646}\u{62f}\u{647} \u{631}\u{627} \u{645}\u{6cc}\u{200c}\u{67e}\u{630}\u{6cc}\u{631}\u{645}."

abbrev pub no_name : Js
no_name = str "—"

-- the first render
abbrev pub first_render : Flow
first_render = record {
  loading = true;
  step = at_terms;
  approved = false;
  code = null;
  coach_name = no_name;
  club_names = [];
  terms_title = terms_name;
  terms = "";
  checked = false;
  submitting = false;
  error = "";
  went = [];
  alerts = [];
}

-- isKyorugi(competition)
unfoldable pub is_kyorugi : Js → Bool
is_kyorugi competition =
    let s = to_lower_case (
      trim (
        to_text (
          or_else (get competition "style_display")
            (or_else (get competition "style") (or_else (get competition "type") (str "")))))) in
    includes s "\u{6a9}\u{6cc}\u{648}\u{631}\u{648}\u{6af}\u{6cc}"
    || includes s "kyorugi"
    || includes s "kyor"

-- publicId
unfoldable pub public_id_of : Js → Js
public_id_of competition = or_else (get competition "public_id") (get competition "id")

-- getRoleSegment()
unfoldable pub get_role_segment : Storage → String
get_role_segment s =
    let r = to_lower_case (if current_role s == "" then user_role s else current_role s) in
    if r == "both"
    then "coach"
    else if any (λ k. k == r) ("coach" ∷ "player" ∷ "referee" ∷ "club" ∷ "heyat" ∷ "board" ∷ [])
    then r
    else if includes r "coach"
    then "coach"
    else if includes r "referee"
    then "referee"
    else if includes r "club"
    then "club"
    else if includes r "heyat" || includes r "board"
    then "heyat"
    else if includes r "player"
    then "player"
    else "coach"

-- goToDetails(); `onDone` belongs to the parent
unfoldable pub go_to_details : Js → Storage → Flow → Flow
go_to_details competition s f =
    let key =
      or_else (get competition "slug")
        (or_else (get competition "public_id") (get competition "id")) in
    let discipline = (if is_kyorugi competition then "kyorugi" else "poomsae") in
    if truthy key
    then record f {
      went =
          f.went
          ++ ("/dashboard/"
              <> get_role_segment s
              <> "/competitions/"
              <> discipline
              <> "/"
              <> encode_uri_component (to_text key))
            ∷ [];
    }
    else record f {
      alerts =
          f.alerts
          ++ "\u{634}\u{646}\u{627}\u{633}\u{647} \u{645}\u{633}\u{627}\u{628}\u{642}\u{647} \u{62f}\u{631} \u{62f}\u{633}\u{62a}\u{631}\u{633} \u{646}\u{6cc}\u{633}\u{62a}. \u{644}\u{637}\u{641}\u{627}ً \u{627}\u{632} \u{644}\u{6cc}\u{633}\u{62a} \u{645}\u{633}\u{627}\u{628}\u{642}\u{627}\u{62a} \u{648}\u{627}\u{631}\u{62f} \u{634}\u{648}\u{6cc}\u{62f}."
            ∷ [];
    }

-- x.trim(), which throws where `x` is no text
abbrev pub trimmed_js : Js → Option String
trimmed_js (str s) = some (trim s)
trimmed_js v = none

abbrev pub with_terms : Option String → Option String → Flow → Flow
with_terms (some title) (some text) f = record f {
  terms_title = title;
  terms = if text == "" then terms_text else text;
}
with_terms _ _ f = record f { terms_title = terms_name; terms = terms_text }

-- step 1 of bootstrap, with the terms or the failure
unfoldable pub received_terms : Result Js → Flow → Flow
received_terms (ok det) f =
    with_terms (trimmed_js (or_else (get det "title") (str terms_name)))
      (trimmed_js (
        or_else (get det "content") (or_else (get det "html") (or_else (get det "text") (str "")))))
      f
received_terms (err e) f = with_terms none none f

-- !!st?.approved || !!st?.is_active || !!st?.terms_accepted
unfoldable pub is_approved : Js → Bool
is_approved st =
    truthy (get st "approved") || truthy (get st "is_active") || truthy (get st "terms_accepted")

abbrev pub code_of : Js → Js
code_of st = or_else (get st "code") null

-- step 2 of bootstrap, with the status or the failure
unfoldable pub received_status : Result Js → Flow → Flow
received_status (ok st) f = record f {
  approved = is_approved st;
  code = code_of st;
  coach_name = or_else (get st "coach_name") no_name;
  club_names = if is_array (get st "club_names") then elements (get st "club_names") else [];
  step = if is_approved st then at_code else at_terms;
}
received_status (err e) f = record f {
  error =
      message_or e
        "\u{62e}\u{637}\u{627} \u{62f}\u{631} \u{62f}\u{631}\u{6cc}\u{627}\u{641}\u{62a} \u{648}\u{636}\u{639}\u{6cc}\u{62a} \u{645}\u{631}\u{628}\u{6cc}";
  step = at_terms;
}

-- the status from the discipline's end point
unfoldable pub approval_status_of : Server → String → Js → World → Result Js × World
approval_status_of server base competition w =
    let id = public_id_of competition in
    if is_kyorugi competition
    then get_coach_approval_status server base id w
    else get_poomsae_coach_approval_status server base id w

-- bootstrap()
unfoldable pub bootstrap : Server → String → Js → Flow → World → Flow × World
bootstrap server base competition f w =
    let id = public_id_of competition in
    let (terms, w1) = get_competition_terms server base id w in
    let (status, w2) = approval_status_of server base competition w1 in
    let f1 = received_terms terms (record f { loading = true; error = "" }) in
    if truthy id then (record (received_status status f1) { loading = false }, w2) else (f, w)

unfoldable pub approve_of : Server → String → Js → World → Result Js × World
approve_of server base competition w =
    let id = public_id_of competition in
    if is_kyorugi competition
    then approve_competition server base id w
    else approve_poomsae_competition server base id w

abbrev pub code_or_null : Result Js → Js
code_or_null (ok st) = code_of st
code_or_null (err e) = null

-- after the approval: its code, or else the code of the status
unfoldable pub approval_sent : Server → String → Js → Result Js → Flow → World → Flow × World
approval_sent server base competition (ok res) f w =
    let (status, w') = approval_status_of server base competition w in
    let here = record f { approved = true; step = at_code } in
    if truthy (get res "code")
    then (record here { code = get res "code" }, w)
    else (record here { code = code_or_null status }, w')
approval_sent server base competition (err e) f w = (
  record f {
    error =
        message_or e
          "\u{62e}\u{637}\u{627} \u{62f}\u{631} \u{62a}\u{627}\u{6cc}\u{6cc}\u{62f} \u{62a}\u{639}\u{647}\u{62f}\u{646}\u{627}\u{645}\u{647}";
  },
  w,
)

-- handleApprove()
unfoldable pub handle_approve : Server → String → Js → Flow → World → Flow × World
handle_approve server base competition f w =
    let (r, w1) = approve_of server base competition w in
    let (f', w2) =
      approval_sent server base competition r (record f { submitting = true; error = "" }) w1 in
    if not f.checked || not (truthy (public_id_of competition))
    then (f, w)
    else (record f' { submitting = false }, w2)

abbrev pub code_received : Result Js → Flow → Flow
code_received (ok st) f = record f { approved = is_approved st; code = code_of st }
code_received (err e) f = record f {
  error =
      message_or e
        "\u{62e}\u{637}\u{627} \u{62f}\u{631} \u{62f}\u{631}\u{6cc}\u{627}\u{641}\u{62a} \u{6a9}\u{62f}";
}

-- refreshCode()
unfoldable pub refresh_code : Server → String → Js → Flow → World → Flow × World
refresh_code server base competition f w =
    let (status, w') = approval_status_of server base competition w in
    let here = record f { submitting = true; error = ""; step = at_code } in
    (record (code_received status here) { submitting = false }, w')

-- the box of the terms
unfoldable pub on_check : Bool → Flow → Flow
on_check b f = record f { checked = b }
