-- ===== src/Details/Form.antt =====
-- CompetitionDetails.jsx: the two forms of the own registration and their validation. One record
-- serves both states: the form of kyorugi leaves `poomsae_type` unused, the other leaves `weight`.
-- The library of the date picker is a parameter: it reads a Jalali date as a time, and as an ISO text;
-- so are the four methods of Date on a time, whose setters take a number out of range as well.
pub mod Laws
use Prim.Native.Char.{code}
use tkd_chb.Base.{
  ℕ, String, ◌==◌, Bool, true, false, not, ◌&&◌, ◌||◌, Option, none, some, List, [], ◌∷◌, ltb, eqb,
  if◌then◌else◌,
}
use tkd_chb.Base.Int.{ℤ, pos, ◌-ℤ◌}
use tkd_chb.Base.Text.{trim, map_chars, nth_char}
use tkd_chb.Base.Digits.{normalize_digits, strip_rtl_marks, sanitize_weight, is_weight}
use tkd_chb.Base.Js.{Js, truthy, to_text}

pub record Picker : Type 0 where
  pub to_date : String → Option ℕ
  pub to_iso : String → String
  pub get_date : ℕ → ℕ
  pub set_date : ℕ → ℤ → ℕ
  pub get_full_year : ℕ → ℕ
  pub set_full_year : ℕ → ℤ → ℕ

abbrev pub Errors : Type 0
Errors = List (String × String)

pub record Form : Type 0 where
  pub opened : Bool
  pub loading : Bool
  pub errors : Errors
  pub can_register : Bool
  pub need_coach_code : Bool
  pub locked : Js
  pub coach_code : Js
  pub weight : Js
  pub poomsae_type : Js
  pub insurance_number : Js
  pub insurance_issue_date : Js
  pub confirmed : Bool

-- stripRtlMarks(normalizeDigits(String(val))).replace(/-/g, "/")
unfoldable pub date_text : Js → String
date_text v =
    map_chars (λ c. if eqb (code c) 45 then nth_char "/" 0 else c)
      (strip_rtl_marks (normalize_digits (to_text v)))

-- parseJalaliInputToDate(val)
unfoldable pub parse_jalali : Picker → Js → Option ℕ
parse_jalali picker v = if truthy v then picker.to_date (trim (date_text v)) else none

-- jalaliInputToISO(val)
unfoldable pub jalali_input_to_iso : Picker → Js → String
jalali_input_to_iso picker v = if truthy v then picker.to_iso (date_text v) else ""

abbrev pub when : Bool → String → String → Errors → Errors
when wrong key text rest = if wrong then (key, text) ∷ rest else rest

abbrev pub issue_key : String
issue_key = "insurance_issue_date"

-- minOk72h.setDate(minOk72h.getDate() - 3)
unfoldable pub min_ok_72h : Picker → ℕ → ℕ
min_ok_72h picker day = picker.set_date day (pos (picker.get_date day) -ℤ pos 3)

-- oldest1y.setFullYear(oldest1y.getFullYear() - 1)
unfoldable pub oldest_1y : Picker → ℕ → ℕ
oldest_1y picker day = picker.set_full_year day (pos (picker.get_full_year day) -ℤ pos 1)

-- the date of issue against the day of the competition
unfoldable pub issue_errors : Picker → ℕ → Option ℕ → Errors → Errors
issue_errors picker day none rest =
    (
      issue_key,
      "\u{62a}\u{627}\u{631}\u{6cc}\u{62e} \u{635}\u{62f}\u{648}\u{631} \u{646}\u{627}\u{645}\u{639}\u{62a}\u{628}\u{631} \u{627}\u{633}\u{62a} (\u{627}\u{644}\u{6af}\u{648}\u{6cc} ۱۴۰۳/۰۵/۲۰).",
    )
    ∷ rest
issue_errors picker day (some issued) rest =
    if ltb (min_ok_72h picker day) issued
    then (
      issue_key,
      "\u{62a}\u{627}\u{631}\u{6cc}\u{62e} \u{635}\u{62f}\u{648}\u{631} \u{628}\u{627}\u{6cc}\u{62f} \u{62d}\u{62f}\u{627}\u{642}\u{644} ۷۲ \u{633}\u{627}\u{639}\u{62a} \u{642}\u{628}\u{644} \u{627}\u{632} \u{62a}\u{627}\u{631}\u{6cc}\u{62e} \u{645}\u{633}\u{627}\u{628}\u{642}\u{647} \u{628}\u{627}\u{634}\u{62f}.",
    )
      ∷ rest
    else if ltb issued (oldest_1y picker day)
    then (
      issue_key,
      "\u{627}\u{639}\u{62a}\u{628}\u{627}\u{631} \u{6a9}\u{627}\u{631}\u{62a} \u{628}\u{6cc}\u{645}\u{647} \u{645}\u{646}\u{642}\u{636}\u{6cc} \u{627}\u{633}\u{62a} (\u{628}\u{6cc}\u{634} \u{627}\u{632} \u{6cc}\u{6a9} \u{633}\u{627}\u{644} \u{642}\u{628}\u{644} \u{627}\u{632} \u{645}\u{633}\u{627}\u{628}\u{642}\u{647}).",
    )
      ∷ rest
    else rest

-- `if (competitionDate) …`
unfoldable pub date_errors : Picker → Option ℕ → Js → Errors → Errors
date_errors picker none v rest = rest
date_errors picker (some day) v rest = issue_errors picker day (parse_jalali picker v) rest

abbrev pub is_blank : Js → Bool
is_blank v = trim (to_text v) == ""

-- the checks that both forms end with
unfoldable pub last_errors : Form → Errors
last_errors reg =
    when (reg.need_coach_code && is_blank reg.coach_code) "coach_code"
      "\u{6a9}\u{62f} \u{62a}\u{623}\u{6cc}\u{6cc}\u{62f} \u{645}\u{631}\u{628}\u{6cc} \u{627}\u{644}\u{632}\u{627}\u{645}\u{6cc} \u{627}\u{633}\u{62a}."
      (when (not reg.confirmed) "confirmed"
        "\u{644}\u{637}\u{641}\u{627}ً \u{635}\u{62d}\u{62a} \u{627}\u{637}\u{644}\u{627}\u{639}\u{627}\u{62a} \u{631}\u{627} \u{62a}\u{623}\u{6cc}\u{6cc}\u{62f} \u{6a9}\u{646}\u{6cc}\u{62f}."
        (when (is_blank reg.insurance_number) "insurance_number"
          "\u{634}\u{645}\u{627}\u{631}\u{647} \u{628}\u{6cc}\u{645}\u{647} \u{627}\u{644}\u{632}\u{627}\u{645}\u{6cc} \u{627}\u{633}\u{62a}."
          []))

unfoldable pub validate_ky : Picker → Option ℕ → Form → Errors
validate_ky picker day reg =
    when (not (is_weight (sanitize_weight (to_text reg.weight)))) "weight"
      "\u{648}\u{632}\u{646} \u{646}\u{627}\u{645}\u{639}\u{62a}\u{628}\u{631} \u{627}\u{633}\u{62a}."
      (date_errors picker day reg.insurance_issue_date (last_errors reg))

unfoldable pub validate_po : Picker → Option ℕ → Form → Errors
validate_po picker day reg =
    when (not (truthy reg.poomsae_type)) "poomsae_type"
      "\u{646}\u{648}\u{639} \u{645}\u{633}\u{627}\u{628}\u{642}\u{647} \u{631}\u{627} \u{627}\u{646}\u{62a}\u{62e}\u{627}\u{628} \u{6a9}\u{646}\u{6cc}\u{62f}."
      (date_errors picker day reg.insurance_issue_date (last_errors reg))
