-- ===== src/Forgot.antt =====
-- ForgotPasswordModal.jsx: the steps of a password reset, from the phone number over the code to the
-- new password, and the cooldown before a code can be sent again.
pub mod Laws
mod Examples
use Prim.Native.Char.{Char, code}
use Prim.Native.String.{◌++◌ as ◌<>◌}
use tkd_chb.Base.{
  ℕ, ◌-◌, String, ◌==◌, Bool, true, false, not, ◌&&◌, Option, none, some, List, [], ◌∷◌, eqb, ltb,
  if◌then◌else◌,
}
use tkd_chb.Base.Text.{length_text, every_char, nth_char}
use tkd_chb.Base.Digits.{is_digit, trimmed_digits}
use tkd_chb.Base.Js.{Js, undefined, num, str, obj, field, end, or_else, get, to_text, is_nullish}
use tkd_chb.Base.Exec.{Result, ok, err}
use tkd_chb.Net.{Request, Response, Server, World, is_ok, fetch}

pub data Step : Type 0 where
  at_phone at_code at_result : Step

pub record Reset : Type 0 where
  pub username : Js
  pub password : Js
  pub role : Js
  pub message : Js

pub record State : Type 0 where
  pub step : Step
  pub phone : String
  pub code_typed : String
  pub error : String
  pub loading : Bool
  pub result : Option Reset
  pub cooldown : ℕ

-- /^09\d{9}$/
unfoldable pub is_phone : String → Bool
is_phone p =
    eqb (length_text p) 11
    && every_char is_digit p
    && eqb (code (nth_char p 0)) 48
    && eqb (code (nth_char p 1)) 57

-- /^\d{4}$/
unfoldable pub is_code : String → Bool
is_code c = eqb (length_text c) 4 && every_char is_digit c

-- one second of the interval
unfoldable pub tick : State → State
tick s = record s { cooldown = s.cooldown - 1 }

-- canResend
unfoldable pub can_resend : State → Bool
can_resend s = eqb s.cooldown 0

abbrev pub json_or_empty : Option Js → Js
json_or_empty none = obj end
json_or_empty (some v) = v

-- data?.error || data?.detail || text, and `err.message || …` of the catch
abbrev pub server_text : Js → String → String
server_text v text = to_text (or_else (get v "error") (or_else (get v "detail") (str text)))

abbrev pub failed : String → State → State
failed text s = record s {
  error =
      if text == ""
      then "\u{645}\u{634}\u{6a9}\u{644}\u{6cc} \u{67e}\u{6cc}\u{634} \u{622}\u{645}\u{62f}."
      else text;
  loading = false;
}

abbrev pub send_failed : String
send_failed =
    "\u{627}\u{631}\u{633}\u{627}\u{644} \u{6a9}\u{62f} \u{646}\u{627}\u{645}\u{648}\u{641}\u{642} \u{628}\u{648}\u{62f}."

-- the cooldown that the server asks for
abbrev pub asked : ℕ → Js → State → State
asked status (num n) s = if eqb status 429 then record s { cooldown = n } else s
asked status _ s = s

-- reading a field of a reply that is null throws
abbrev pub null_read : String → String
null_read key = "Cannot read properties of null (reading '" <> key <> "')"

unfoldable pub code_sent : String → Result Response → State → State
code_sent p (err e) s = failed e.message s
code_sent p (ok res) s =
    let v = json_or_empty res.json in
    if is_ok res.status
    then record s { phone = p; step = at_code; cooldown = 180; loading = false }
    else if eqb res.status 429 && is_nullish v
    then failed (null_read "retry_after") s
    else failed (server_text v send_failed) (asked res.status (get v "retry_after") s)

abbrev post : String → Js → Request
post url body = record {
  url = url;
  method = "POST";
  headers = ("Content-Type", "application/json") ∷ [];
  body = body;
}

-- handleSendCode
unfoldable pub handle_send_code : Server → String → State → World → State × World
handle_send_code server url s w =
    let p = trimmed_digits s.phone in
    let (r, w') = fetch server (post url (obj (field "phone" (str p) end))) w in
    if is_phone p then (code_sent p r (record s { error = ""; loading = true }), w') else (
      record s {
        error =
            "\u{634}\u{645}\u{627}\u{631}\u{647} \u{645}\u{648}\u{628}\u{627}\u{6cc}\u{644} \u{645}\u{639}\u{62a}\u{628}\u{631} \u{646}\u{6cc}\u{633}\u{62a}.";
      },
      w,
    )

abbrev pub reset_of : Js → Reset
reset_of v = record {
  username = get v "username";
  password = get v "password";
  role = get v "role";
  message = or_else (get v "message") (
      str
        "\u{631}\u{645}\u{632} \u{639}\u{628}\u{648}\u{631} \u{634}\u{645}\u{627} \u{628}\u{627}\u{632}\u{646}\u{634}\u{627}\u{646}\u{6cc} \u{634}\u{62f}.");
}

unfoldable pub verified : Result Response → State → State
verified (err e) s = failed e.message s
verified (ok res) s =
    let v = json_or_empty res.json in
    if is_ok res.status && is_nullish v
    then failed (null_read "username") s
    else if is_ok res.status
    then record s { result = some (reset_of v); step = at_result; loading = false }
    else failed
        (server_text v
          "\u{62a}\u{623}\u{6cc}\u{6cc}\u{62f} \u{6a9}\u{62f} \u{646}\u{627}\u{645}\u{648}\u{641}\u{642} \u{628}\u{648}\u{62f}.")
        s

-- handleVerify
unfoldable pub handle_verify : Server → String → State → World → State × World
handle_verify server url s w =
    let p = trimmed_digits s.phone in
    let c = trimmed_digits s.code_typed in
    let (r, w') =
      fetch server (post url (obj (field "phone" (str p) (field "code" (str c) end)))) w in
    if not (is_phone p)
    then (
      record s {
        error =
            "\u{634}\u{645}\u{627}\u{631}\u{647} \u{645}\u{648}\u{628}\u{627}\u{6cc}\u{644} \u{645}\u{639}\u{62a}\u{628}\u{631} \u{646}\u{6cc}\u{633}\u{62a}.";
      },
      w,
    )
    else if not (is_code c)
    then (
      record s {
        error =
            "\u{6a9}\u{62f} \u{628}\u{627}\u{6cc}\u{62f} ۴ \u{631}\u{642}\u{645}\u{6cc} \u{628}\u{627}\u{634}\u{62f}.";
      },
      w,
    )
    else (verified r (record s { error = ""; loading = true }), w')
