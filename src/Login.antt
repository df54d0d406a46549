-- ===== src/Login.antt =====
-- LoginModal.jsx: the login form, what it sends and what it stores.
pub mod Laws
mod Examples
use Prim.Native.Nat.{◌-◌}
use Prim.Native.Char.{code}
use Prim.Native.String.{◌++◌ as ◌<>◌}
use Prim.Native.String
use tkd_chb.Base.{
  ℕ, String, ◌==◌, Bool, true, false, not, ◌&&◌, ◌||◌, Option, none, some, List, [], ◌∷◌, ◌++◌, any,
  ltb, leb, eqb, if◌then◌else◌,
}
use tkd_chb.Base.Text.{to_lower_case, trim, length_text, every_char}
use tkd_chb.Base.Digits.{is_digit, login_digits}
use tkd_chb.Base.Js.{
  Js, undefined, null, str, obj, field, end, truthy, is_nullish, or_else, get, to_text,
}
use tkd_chb.Base.Exec.{Failure, error, Result, ok, err}
use tkd_chb.Net.{Request, Response, Server, World, is_ok, fetch}
use tkd_chb.Storage.{Storage, set_item}
use tkd_chb.Session.{token_key}

abbrev pub one_of : String → List String → Bool
one_of s ts = any (λ t. s == t) ts

-- val.replace(/^\+/, "")
unfoldable pub drop_plus : String → String
drop_plus String.[] = ""
drop_plus (String.◌∷◌ c s) = if eqb (code c) 43 then s else String.◌∷◌ c s

-- /^\+?\d+$/
abbrev is_number : String → Bool
is_number v = every_char is_digit (drop_plus v) && not (drop_plus v == "")

-- isValidUsername(v)
unfoldable pub is_valid_username : String → Bool
is_valid_username v =
    let val = login_digits v in
    if is_number val
    then leb 10 (length_text (drop_plus val)) && leb (length_text (drop_plus val)) 15
    else leb 3 (length_text val)

-- normalizeRole(r)
unfoldable pub normalize_role : String → String
normalize_role r =
    let key = to_lower_case r in
    if one_of key ("coach" ∷ "referee" ∷ "both" ∷ [])
    then key
    else if key == "club"
    then "club"
    else if one_of key ("heyat" ∷ "hey'at" ∷ [])
    then "heyat"
    else "player"

-- ROLE_GROUPS[role] || ["player"]
unfoldable pub allowed_roles : String → List String
allowed_roles role =
    if role == "coachref"
    then "coach" ∷ "referee" ∷ "both" ∷ []
    else if role == "club"
    then "club" ∷ []
    else if role == "heyat"
    then "heyat" ∷ []
    else "player" ∷ []

pub record Modal : Type 0 where
  pub username : String
  pub password : String
  pub error : String
  pub loading : Bool
  pub closed : Bool
  pub went : List String

-- the early returns of handleLogin, with their message; `u` and `p` are cleaned
unfoldable pub refusal : String → String → Option String
refusal u p =
    if u == "" || p == ""
    then some
        "\u{646}\u{627}\u{645} \u{6a9}\u{627}\u{631}\u{628}\u{631}\u{6cc} \u{648} \u{631}\u{645}\u{632} \u{639}\u{628}\u{648}\u{631} \u{627}\u{644}\u{632}\u{627}\u{645}\u{6cc} \u{627}\u{633}\u{62a}."
    else if not (is_valid_username u)
    then some
        "\u{641}\u{631}\u{645}\u{62a} \u{646}\u{627}\u{645} \u{6a9}\u{627}\u{631}\u{628}\u{631}\u{6cc} \u{635}\u{62d}\u{6cc}\u{62d} \u{646}\u{6cc}\u{633}\u{62a}."
    else if ltb (length_text p) 6
    then some
        "\u{62d}\u{62f}\u{627}\u{642}\u{644} \u{637}\u{648}\u{644} \u{631}\u{645}\u{632} \u{639}\u{628}\u{648}\u{631} ۶ \u{6a9}\u{627}\u{631}\u{627}\u{6a9}\u{62a}\u{631} \u{627}\u{633}\u{62a}."
    else none

abbrev pub json_or_empty : Option Js → Js
json_or_empty none = obj end
json_or_empty (some v) = v

-- the message for a bad status
unfoldable pub login_error : ℕ → Js → Js
login_error status v = or_else (get v "error") (
    or_else (get v "detail") (
      or_else (get v "message") (
        str (
          if eqb status 401
          then "\u{646}\u{627}\u{645} \u{6a9}\u{627}\u{631}\u{628}\u{631}\u{6cc} \u{6cc}\u{627} \u{631}\u{645}\u{632} \u{639}\u{628}\u{648}\u{631} \u{627}\u{634}\u{62a}\u{628}\u{627}\u{647} \u{627}\u{633}\u{62a}."
          else if eqb status 403
          then "\u{627}\u{6cc}\u{646} \u{641}\u{631}\u{645} \u{645}\u{62e}\u{635}\u{648}\u{635} \u{646}\u{642}\u{634} \u{62f}\u{6cc}\u{6af}\u{631}\u{6cc} \u{627}\u{633}\u{62a}."
          else if eqb status 404
          then "\u{645}\u{633}\u{6cc}\u{631} \u{644}\u{627}\u{6af}\u{6cc}\u{646} \u{6cc}\u{627}\u{641}\u{62a} \u{646}\u{634}\u{62f}. \u{67e}\u{631}\u{6cc}\u{641}\u{6cc}\u{6a9}\u{633} \u{627}\u{634}\u{62a}\u{628}\u{627}\u{647} \u{627}\u{633}\u{62a}."
          else "\u{645}\u{634}\u{6a9}\u{644}\u{6cc} \u{62f}\u{631} \u{648}\u{631}\u{648}\u{62f} \u{67e}\u{6cc}\u{634} \u{622}\u{645}\u{62f}."))))

unfoldable pub role_from_api : Js → String
role_from_api v =
    normalize_role
      (to_text (or_else (get v "role") (or_else (get (get v "user") "role") (str "player"))))

unfoldable pub token_from_api : Js → Js
token_from_api v =
    or_else (get v "access") (or_else (get v "token") (or_else (get v "jwt") (get v "accessToken")))

abbrev pub is_allowed : String → String → Bool
is_allowed role r =
    one_of r (allowed_roles role)
    || role == "coachref" && one_of r ("coach" ∷ "referee" ∷ "both" ∷ [])

-- the two `setItem` of a login
unfoldable pub sign_in : String → Js → Storage → Storage
sign_in r token s =
    set_item "user_role" r (if truthy token then set_item (token_key r) (to_text token) s else s)

unfoldable pub next_path : String → String
next_path r =
    if r == "player"
    then "/dashboard/player"
    else if r == "club"
    then "/dashboard/club"
    else if r == "heyat"
    then "/dashboard/heyat"
    else "/dashboard/coachref"

abbrev pub failed : String → Modal → Modal
failed text m = record m {
  error =
      if text == ""
      then "\u{645}\u{634}\u{6a9}\u{644}\u{6cc} \u{67e}\u{6cc}\u{634} \u{622}\u{645}\u{62f}."
      else text;
  loading = false;
}

abbrev pub entered : String → Modal → Modal
entered r m = record m { closed = true; loading = false; went = m.went ++ next_path r ∷ [] }

abbrev pub other_form : String
other_form =
    "\u{627}\u{6cc}\u{646} \u{641}\u{631}\u{645} \u{645}\u{62e}\u{635}\u{648}\u{635} \u{646}\u{642}\u{634} \u{62f}\u{6cc}\u{6af}\u{631}\u{6cc} \u{627}\u{633}\u{62a}. \u{644}\u{637}\u{641}\u{627}ً \u{627}\u{632} \u{641}\u{631}\u{645} \u{635}\u{62d}\u{6cc}\u{62d} \u{648}\u{631}\u{648}\u{62f} \u{627}\u{633}\u{62a}\u{641}\u{627}\u{62f}\u{647} \u{6a9}\u{646}\u{6cc}\u{62f}."

-- the message of the TypeError where the body of the reply is null, as Chromium has it
abbrev pub null_read : String
null_read = "Cannot read properties of null (reading 'role')"

unfoldable pub answer : String → ℕ → Js → Modal → World → Modal × World
answer role status v m w =
    let r = role_from_api v in
    if not (is_ok status)
    then (failed (to_text (login_error status v)) m, w)
    else if is_nullish v
    then (failed null_read m, w)
    else if not (is_allowed role r)
    then (failed other_form m, w)
    else (entered r m, record w { storage = sign_in r (token_from_api v) w.storage })

unfoldable pub answered_login : String → Result Response → Modal → World → Modal × World
answered_login role (ok res) m w = answer role res.status (json_or_empty res.json) m w
answered_login role (err e) m w = (failed e.message m, w)

abbrev pub login_request : String → String → String → String → Request
login_request url role u p = record {
  url = url;
  method = "POST";
  headers = ("Content-Type", "application/json") ∷ ("X-Role-Group", role) ∷ [];
  body =
      obj
        (field "identifier" (str u) (field "password" (str p) (field "roleGroup" (str role) end)));
}

unfoldable pub submit : Server → String → String → Option String → Modal → World → Modal × World
submit server url role (some text) m w = (record m { error = text }, w)
submit server url role none m w =
    let (r, w') =
      fetch server (login_request url role (login_digits m.username) (trim m.password)) w in
    answered_login role r (record m { error = ""; loading = true }) w'

-- handleLogin; an aborted request is left out, since only closing the form aborts it
unfoldable pub handle_login : Server → String → String → Modal → World → Modal × World
handle_login server url role m w =
    if m.loading
    then (m, w)
    else submit server url role (refusal (login_digits m.username) (trim m.password)) m w
