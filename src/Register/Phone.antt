-- ===== src/Register/Phone.antt =====
-- RegisterModal.jsx: a phone is verified before a registration. What the server asks to wait for is a
-- number of seconds, or none where it is no number; the index of an input is that of a shown one.
pub mod Laws
pub mod Typed
pub mod Cooldown
use Prim.Native.String.{◌++◌ as ◌<>◌}
use tkd_chb.Base.{
  ℕ, zero, suc, ◌+◌, ◌-◌, String, ◌==◌, Bool, true, false, not, ◌&&◌, ◌||◌, Option, none, some,
  List, [], ◌∷◌, every, ltb, eqb, if◌then◌else◌,
}
use tkd_chb.Base.Text.{length_text, every_char, join}
use tkd_chb.Base.Digits.{is_digit}
use tkd_chb.Base.Js.{Js, str, obj, field, end, truthy, get, is_nullish}
use tkd_chb.Base.Exec.{Result, ok, err}
use tkd_chb.Net.{Request, Response, Server, World, is_ok, fetch}
use tkd_chb.Storage.{set_item}
use tkd_chb.Students.Ids.{number_of}
use tkd_chb.Forgot.{is_phone}

pub data Screen : Type 0 where
  at_phone at_code : Screen

pub record Signup : Type 0 where
  pub step : Screen
  pub phone : String
  pub code : List String
  pub timer : Option ℕ
  pub error : Js
  pub cooldown_active : Bool
  pub focused : ℕ

abbrev pub empty_code : List String
empty_code = "" ∷ "" ∷ "" ∷ "" ∷ []

unfoldable pub initial_signup : Signup
initial_signup = record {
  step = at_phone;
  phone = "";
  code = empty_code;
  timer = some 0;
  error = str "";
  cooldown_active = false;
  focused = 0;
}

abbrev pub settle_at : Option ℕ → Signup → Signup
settle_at none s = s
settle_at (some n) s =
    if eqb n 0 && s.cooldown_active then record s { cooldown_active = false } else s

-- the end of the cooldown
unfoldable pub settle : Signup → Signup
settle s = settle_at s.timer s

abbrev pub tick_at : Option ℕ → Signup → Signup
tick_at none s = s
tick_at (some n) s =
    if s.cooldown_active && ltb 0 n then settle (record s { timer = some (n - 1) }) else s

-- one second of the interval, which runs only in a cooldown
unfoldable pub tick : Signup → Signup
tick s = tick_at s.timer s

unfoldable pub ticks : ℕ → Signup → Signup
ticks zero s = s
ticks (suc n) s = ticks n (tick s)

-- a step with a cooldown that starts
abbrev pub waiting : Option ℕ → Signup → Signup
waiting n s = settle (record s { step = at_code; timer = n; cooldown_active = true })

abbrev pub say : Js → Signup → Signup
say e s = record s { error = e }

-- the error that a refusal shows
unfoldable pub refusal : Js → Js
refusal v =
    if truthy (get v "phone")
    then get v "phone"
    else if truthy (get v "error")
    then get v "error"
    else str
        "\u{62e}\u{637}\u{627} \u{62f}\u{631} \u{627}\u{631}\u{633}\u{627}\u{644} \u{6a9}\u{62f}"

abbrev pub no_server : Js
no_server =
    str
      "\u{62e}\u{637}\u{627} \u{62f}\u{631} \u{627}\u{631}\u{62a}\u{628}\u{627}\u{637} \u{628}\u{627} \u{633}\u{631}\u{648}\u{631}"

-- the reply to send-code
unfoldable pub phone_replied : ℕ → Js → Signup → Signup
phone_replied status v s =
    if is_ok status
    then waiting (some 180) s
    else if is_nullish v
    then say no_server s
    else say (refusal v)
        (if truthy (get v "retry_after") then waiting (number_of (get v "retry_after")) s else s)

-- a reply that is no JSON counts as one that fails
abbrev pub phone_answered : ℕ → Option Js → Signup → Signup
phone_answered status none s = say no_server s
phone_answered status (some v) s = phone_replied status v s

unfoldable pub phone_sent : Result Response → Signup → Signup
phone_sent (err e) s = say no_server s
phone_sent (ok res) s = phone_answered res.status res.json s

abbrev post : String → Js → Request
post url body = record {
  url = url;
  method = "POST";
  headers = ("Content-Type", "application/json") ∷ [];
  body = body;
}

abbrev pub send_url : String
send_url = "http://localhost:8000/api/auth/send-code/"

abbrev pub verify_url : String
verify_url = "http://localhost:8000/api/auth/verify-code/"

abbrev pub send_request : String → String → Request
send_request role phone =
    post send_url (obj (field "phone" (str phone) (field "role" (str role) end)))

-- sendPhone(): the request goes out, and its reply comes at any later time
unfoldable pub send_phone : String → Signup → Signup × Option Request
send_phone role s =
    if not (is_phone s.phone)
    then (
      say
          (str
            "\u{634}\u{645}\u{627}\u{631}\u{647} \u{645}\u{639}\u{62a}\u{628}\u{631} \u{646}\u{6cc}\u{633}\u{62a}")
          s,
      none,
    )
    else if s.cooldown_active
    then (
      say
          (str
            "\u{644}\u{637}\u{641}\u{627}ً \u{62a}\u{627} \u{67e}\u{627}\u{6cc}\u{627}\u{646} \u{634}\u{645}\u{627}\u{631}\u{646}\u{62f}\u{647} \u{635}\u{628}\u{631} \u{6a9}\u{646}\u{6cc}\u{62f}")
          s,
      none,
    )
    else (say (str "") s, some (send_request role s.phone))

-- resendCode()
unfoldable pub resend_code : String → Signup → Signup × Option Request
resend_code role s =
    if s.cooldown_active
    then (
      say (str "\u{644}\u{637}\u{641}\u{627}ً \u{635}\u{628}\u{631} \u{6a9}\u{646}\u{6cc}\u{62f}")
          s,
      none,
    )
    else send_phone role s

abbrev pub verify_request : String → String → Request
verify_request phone code_text =
    post verify_url (obj (field "phone" (str phone) (field "code" (str code_text) end)))

abbrev pub rejected_code : Signup → Signup
rejected_code s = record s {
  error = str "\u{6a9}\u{62f} \u{627}\u{634}\u{62a}\u{628}\u{627}\u{647} \u{627}\u{633}\u{62a}";
  code = empty_code;
  focused = 0;
}

-- the reply to verify-code for the phone that was sent, with the page that is opened
unfoldable pub code_replied : String → String → Js → Signup → World → Signup × Option String × World
code_replied role phone v s w =
    if is_nullish v
    then (s, none, w)
    else if truthy (get v "message")
    then (
      s,
      some ("/register-" <> (if role == "" then "player" else role)),
      record w { storage = set_item "verifiedPhone" phone w.storage },
    )
    else (rejected_code s, none, w)

abbrev pub code_answered :
    String → String → Option Js → Signup → World → Signup × Option String × World
code_answered role phone none s w = (s, none, w)
code_answered role phone (some v) s w = code_replied role phone v s w

-- where no reply comes, or one that is no JSON, nothing changes
unfoldable pub code_verified :
    String → String → Result Response → Signup → World → Signup × Option String × World
code_verified role phone (err e) s w = (s, none, w)
code_verified role phone (ok res) s w = code_answered role phone res.json s w

-- verifyCode(codeStr): the request, with the phone of the moment
unfoldable pub verify_code : String → Signup → Request
verify_code code_text s = verify_request s.phone code_text

-- newCode[index] = value
unfoldable pub set_at : ℕ → String → List String → List String
set_at n v [] = []
set_at zero v (c ∷ cs) = v ∷ cs
set_at (suc n) v (c ∷ cs) = c ∷ set_at n v cs

-- /^\d?$/
unfoldable pub is_digit_or_empty : String → Bool
is_digit_or_empty s = ltb (length_text s) 2 && every_char is_digit s

abbrev pub is_full : List String → Bool
is_full cs = every (λ c. eqb (length_text c) 1) cs

abbrev pub typed : String → ℕ → Signup → Signup
typed value index s = record s {
  code = set_at index value s.code;
  focused = if not (value == "") && ltb index 3 then index + 1 else s.focused;
}

-- handleCodeChange(value, index)
unfoldable pub handle_code_change : String → ℕ → Signup → Signup × Option Request
handle_code_change value index s =
    let s' = typed value index s in
    if not (is_digit_or_empty value)
    then (s, none)
    else if is_full s'.code
    then (s', some (verify_code (join "" s'.code) s'))
    else (s', none)

-- getTitleFromRole(role)
unfoldable pub get_title_from_role : String → String
get_title_from_role role =
    if role == "player"
    then "\u{628}\u{627}\u{632}\u{6cc}\u{6a9}\u{646}"
    else if role == "coach"
    then "\u{645}\u{631}\u{628}\u{6cc} | \u{62f}\u{627}\u{648}\u{631}"
    else if role == "club"
    then "\u{628}\u{627}\u{634}\u{6af}\u{627}\u{647}"
    else if role == "heyat"
    then "\u{647}\u{6cc}\u{626}\u{62a}"
    else "\u{6a9}\u{627}\u{631}\u{628}\u{631}"
