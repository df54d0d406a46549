-- ===== src/Seminar.antt =====
-- SeminarDetail.jsx: the page of a seminar, with the registration for it. `today` is the date in ISO
-- form. The page stays open while a request is on its way.
pub mod Profile
pub mod Laws
mod Examples
use Prim.Native.Char.{code}
use Prim.Native.String.{[], ◌∷◌, ◌++◌ as ◌<>◌}
use tkd_chb.Base.{
  ℕ, String, ◌==◌, Bool, true, false, not, ◌&&◌, ◌||◌, Option, none, some, List, [], ◌∷◌, ◌++◌, any,
  eqb, ltb, if◌then◌else◌, map,
}
use tkd_chb.Base.Text.{includes, to_lower_case, encode_uri_component}
use tkd_chb.Base.Js.{
  is_text, Js, undefined, null, str, array, object, obj, end, truthy, or_else, get, is_array,
  elements, to_text, of_items, of_entries,
}
use tkd_chb.Storage.{Storage, get_item}
use tkd_chb.Session.{user_role, token_key, text_or_empty}
use tkd_chb.Net.{Request, World}
use tkd_chb.Axios.{Rejection, Answer, resolved, rejected, Axios, bearer, axios_get}

-- roleArrayFromRole(role)
unfoldable pub role_array_from_role : String → List String
role_array_from_role role =
    if role == "both"
    then "coach" ∷ "referee" ∷ []
    else if any (λ r. r == role) ("player" ∷ "coach" ∷ "referee" ∷ [])
    then role ∷ []
    else []

-- role, token
unfoldable pub seminar_role : Storage → String
seminar_role s = to_lower_case (if user_role s == "" then "player" else user_role s)

unfoldable pub seminar_token : Storage → String
seminar_token s =
    let own = text_or_empty (get_item s (token_key (seminar_role s))) in
    if own == "" then text_or_empty (get_item s "access_token") else own

abbrev pub allows : List Js → String → Bool
allows allowed r = any (λ v. is_text v r) allowed

abbrev pub no_items : List Js → Bool
no_items [] = true
no_items (_ ∷ _) = false

abbrev pub roles_of : Js → List Js
roles_of seminar = elements (get seminar "allowed_roles")

-- canRegisterByRole, for `allowed_roles` an array or missing
unfoldable pub can_register_by_role : Js → String → Bool
can_register_by_role seminar role =
    truthy seminar
    && not (any (λ r. r == role) ("club" ∷ "heyat" ∷ "board" ∷ []))
    && (no_items (roles_of seminar)
        || any (λ r. allows (roles_of seminar) r) (role_array_from_role role))

-- s <= t, of texts
unfoldable pub text_leq : String → String → Bool
text_leq [] t = true
text_leq (c ∷ s) [] = false
text_leq (c ∷ s) (d ∷ t) =
    let rest = text_leq s t in ltb (code c) (code d) || eqb (code c) (code d) && rest

pub data Badge : Type 0 where
  is_open is_upcoming is_past : Badge

-- statusBadge, of a seminar that is there; its dates are texts
unfoldable pub status_badge : Js → String → Badge
status_badge seminar today =
    let start = get seminar "registration_start" in
    let finish = get seminar "registration_end" in
    let event = get seminar "event_date" in
    if truthy start
      && text_leq (to_text start) today
      && truthy finish
      && text_leq today (to_text finish)
    then is_open
    else if truthy event && text_leq today (to_text event)
    then is_upcoming
    else is_past

pub record Detail : Type 0 where
  pub seminar : Js
  pub profile : Js
  pub mini_profile : Js
  pub loading : Bool
  pub error : Js
  pub show_confirm : Bool
  pub registering : Bool
  pub success_msg : String
  pub already_registered : Bool
  pub went : List String

abbrev pub received_detail : Answer → Answer → Detail → Detail
received_detail (resolved s) (resolved p) d = record d {
  seminar = or_else s null;
  profile = or_else p null;
  loading = false;
}
received_detail _ _ d = record d {
  error =
      str
        "\u{62e}\u{637}\u{627} \u{62f}\u{631} \u{62f}\u{631}\u{6cc}\u{627}\u{641}\u{62a} \u{627}\u{637}\u{644}\u{627}\u{639}\u{627}\u{62a} \u{633}\u{645}\u{6cc}\u{646}\u{627}\u{631}";
  loading = false;
}

-- the first effect: both requests go out, and both must succeed
unfoldable pub load_detail : Axios → String → String → Storage → Detail → World → Detail × World
load_detail axios base slug s d w =
    let token = seminar_token s in
    let (sem, w1) =
      axios
        (axios_get (base <> "/api/competitions/seminars/" <> encode_uri_component slug <> "/") [])
        w in
    let (prof, w2) =
      axios
        (axios_get (base <> "/api/auth/dashboard/" <> encode_uri_component (seminar_role s) <> "/")
          (bearer token))
        w1 in
    let here = record d { loading = true; error = str "" } in
    if token == ""
    then (received_detail sem (resolved null) here, w1)
    else (received_detail sem prof here, w2)

abbrev received_mini : Answer → Detail → Detail
received_mini (resolved v) d = record d { mini_profile = or_else v (obj end) }
received_mini (rejected e) d = d

-- the second effect
unfoldable pub load_mini : Axios → String → Storage → Detail → World → Detail × World
load_mini axios base s d w =
    let (r, w') =
      axios (axios_get (base <> "/api/auth/profile/mini/") (bearer (seminar_token s))) w in
    if seminar_token s == "" then (d, w) else (received_mini r d, w')

unfoldable pub on_back : Storage → Detail → Detail
on_back s d = record d {
  went =
      d.went ++ ("/dashboard/" <> encode_uri_component (seminar_role s) <> "?section=courses") ∷ [];
}

-- onClickRegister()
unfoldable pub on_click_register : Storage → Detail → Detail
on_click_register s d = record d {
  show_confirm = true;
  success_msg = "";
  error =
      if seminar_token s == ""
      then str
          "\u{628}\u{631}\u{627}\u{6cc} \u{62b}\u{628}\u{62a}\u{200c}\u{646}\u{627}\u{645} \u{628}\u{627}\u{6cc}\u{62f} \u{648}\u{627}\u{631}\u{62f} \u{62d}\u{633}\u{627}\u{628} \u{634}\u{648}\u{6cc}\u{62f}."
      else d.error;
}

abbrev pub registered_now : String → Detail → Detail
registered_now text d = record d {
  success_msg = text;
  already_registered = true;
  show_confirm = false;
}

-- e?.response?.data?.detail || ""
abbrev pub detail_of : Js → Js
detail_of v = or_else (get v "detail") (str "")

abbrev pub is_double : Js → Bool
is_double detail =
    includes (to_lower_case (to_text detail)) "unique" || includes (to_text detail) "exists"

unfoldable pub refused_registration : Option Rejection → Detail → Detail
refused_registration none d = record d {
  error =
      str
        "\u{62e}\u{637}\u{627} \u{62f}\u{631} \u{62b}\u{628}\u{62a}\u{200c}\u{646}\u{627}\u{645}. \u{644}\u{637}\u{641}\u{627}ً \u{62f}\u{648}\u{628}\u{627}\u{631}\u{647} \u{62a}\u{644}\u{627}\u{634} \u{6a9}\u{646}\u{6cc}\u{62f}.";
}
refused_registration (some e) d =
    let detail = detail_of e.data_sent in
    if eqb e.status 400 || eqb e.status 409
    then (if is_double detail
        then record d {
          already_registered = true;
          error =
              str
                "\u{634}\u{645}\u{627} \u{642}\u{628}\u{644}\u{627}ً \u{62f}\u{631} \u{627}\u{6cc}\u{646} \u{633}\u{645}\u{6cc}\u{646}\u{627}\u{631} \u{62b}\u{628}\u{62a}\u{200c}\u{646}\u{627}\u{645} \u{6a9}\u{631}\u{62f}\u{647}\u{200c}\u{627}\u{6cc}\u{62f}.";
        }
        else record d {
          error = or_else detail (
              str
                "\u{62b}\u{628}\u{62a}\u{200c}\u{646}\u{627}\u{645} \u{645}\u{645}\u{6a9}\u{646} \u{646}\u{634}\u{62f}.");
        })
    else if eqb e.status 401
    then record d {
      error =
          str
            "\u{644}\u{637}\u{641}\u{627}ً \u{62f}\u{648}\u{628}\u{627}\u{631}\u{647} \u{648}\u{627}\u{631}\u{62f} \u{634}\u{648}\u{6cc}\u{62f}.";
    }
    else record d {
      error =
          str
            "\u{62e}\u{637}\u{627} \u{62f}\u{631} \u{62b}\u{628}\u{62a}\u{200c}\u{646}\u{627}\u{645}. \u{644}\u{637}\u{641}\u{627}ً \u{62f}\u{648}\u{628}\u{627}\u{631}\u{647} \u{62a}\u{644}\u{627}\u{634} \u{6a9}\u{646}\u{6cc}\u{62f}.";
    }

unfoldable pub registration_sent : Answer → Detail → Detail
registration_sent (resolved v) d =
    if is_text (get v "status") "ok"
    then registered_now
        "\u{62b}\u{628}\u{62a}\u{200c}\u{646}\u{627}\u{645} \u{634}\u{645}\u{627} \u{628}\u{627} \u{645}\u{648}\u{641}\u{642}\u{6cc}\u{62a} \u{627}\u{646}\u{62c}\u{627}\u{645} \u{634}\u{62f}."
        d
    else registered_now
        "\u{62f}\u{631}\u{62e}\u{648}\u{627}\u{633}\u{62a} \u{62b}\u{628}\u{62a}\u{200c}\u{646}\u{627}\u{645} \u{627}\u{631}\u{633}\u{627}\u{644} \u{634}\u{62f}."
        d
registration_sent (rejected e) d = refused_registration e d

-- the post of onConfirmAndPay
unfoldable pub registration_request : String → String → Storage → Request
registration_request base slug s = record {
  url = base <> "/api/competitions/auth/seminars/" <> encode_uri_component slug <> "/register/";
  method = "POST";
  headers = bearer (seminar_token s);
  body = object (("roles", array (map str (role_array_from_role (seminar_role s)))) ∷ []);
}

abbrev pub no_roles : List String → Bool
no_roles [] = true
no_roles (_ ∷ _) = false

-- onConfirmAndPay()
unfoldable pub on_confirm_and_pay :
    Axios → String → String → Storage → Detail → World → Detail × World
on_confirm_and_pay axios base slug s d w =
    let (r, w') = axios (registration_request base slug s) w in
    let sent =
      registration_sent r (record d { registering = true; error = str ""; success_msg = "" }) in
    if not (truthy d.seminar) || seminar_token s == ""
    then (
      record d {
        error =
            str
              "\u{628}\u{631}\u{627}\u{6cc} \u{62b}\u{628}\u{62a}\u{200c}\u{646}\u{627}\u{645} \u{628}\u{627}\u{6cc}\u{62f} \u{648}\u{627}\u{631}\u{62f} \u{634}\u{648}\u{6cc}\u{62f}.";
      },
      w,
    )
    else if no_roles (role_array_from_role (seminar_role s))
    then (
      record d {
        error =
            str
              "\u{627}\u{6cc}\u{646} \u{646}\u{642}\u{634} \u{627}\u{645}\u{6a9}\u{627}\u{646} \u{62b}\u{628}\u{62a}\u{200c}\u{646}\u{627}\u{645} \u{62f}\u{631} \u{633}\u{645}\u{6cc}\u{646}\u{627}\u{631} \u{631}\u{627} \u{646}\u{62f}\u{627}\u{631}\u{62f}.";
      },
      w,
    )
    else (record sent { registering = false }, w')
