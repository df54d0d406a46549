-- ===== src/Register/Person.antt =====
-- StepOnePlayer.jsx and StepOneCoach.jsx: the first step of a player and of a coach, which differ in the
-- rule for the age. The date library is a parameter: it reads a Jalali date and knows today's.
pub mod Laws
use Prim.Native.Char.{Char, code}
use Prim.Native.String.{◌++◌ as ◌<>◌}
use tkd_chb.Base.{
  ℕ, ◌+◌, ◌-◌, String, ◌==◌, Bool, true, false, not, ◌&&◌, ◌||◌, Option, none, some, List, [], ◌∷◌,
  every, ltb, leb, eqb, if◌then◌else◌,
}
use tkd_chb.Base.Int.{ℤ, pos, ◌-ℤ◌, ltb_ℤ}
use tkd_chb.Base.Text.{map_chars, nth_char, length_text}
use tkd_chb.Base.Js.{Js, undefined, truthy, get}
use tkd_chb.Base.Exec.{Result, ok, err}
use tkd_chb.Net.{Request, Response, Server, World, fetch}
use tkd_chb.Register.{
  Form, Entry, field_of, is_given, text_in, text, set_entry, is_persian, is_numeric,
}

pub record JalaliDate : Type 0 where
  pub year : ℕ
  pub month : ℕ
  pub day : ℕ

pub record Calendar : Type 0 where
  pub read_date : String → JalaliDate
  pub today : JalaliDate

-- toEnglishNumber(str)
unfoldable pub to_english_number : String → String
to_english_number s =
    map_chars
      (λ c.
        if leb 0x6f0 (code c) && leb (code c) 0x6f9
        then nth_char "0123456789" (code c - 0x6f0)
        else c)
      s

-- calculateAge(birthDateStr)
unfoldable pub calculate_age : Calendar → String → ℤ
calculate_age cal birth_date =
    let birth = cal.read_date (to_english_number birth_date) in
    let years = pos cal.today.year -ℤ pos birth.year in
    if birth_date == ""
    then pos 0
    else if ltb cal.today.month birth.month
        || eqb cal.today.month birth.month && ltb cal.today.day birth.day
    then years -ℤ pos 1
    else years

-- the error for a gender and an age, or none
abbrev pub AgeRule : Type 0
AgeRule = String → ℤ → Option String

unfoldable pub player_age : AgeRule
player_age gender age =
    if ltb_ℤ age (pos 4)
    then some
        "\u{62d}\u{62f}\u{627}\u{642}\u{644} \u{633}\u{646} \u{628}\u{631}\u{627}\u{6cc} \u{628}\u{627}\u{632}\u{6cc}\u{6a9}\u{646} \u{628}\u{627}\u{6cc}\u{62f} ۴ \u{633}\u{627}\u{644} \u{628}\u{627}\u{634}\u{62f}."
    else none

unfoldable pub coach_age : AgeRule
coach_age gender age =
    if gender == "female" && ltb_ℤ age (pos 21)
    then some
        "\u{62d}\u{62f}\u{627}\u{642}\u{644} \u{633}\u{646} \u{628}\u{631}\u{627}\u{6cc} \u{62e}\u{627}\u{646}\u{645}\u{200c}\u{647}\u{627} \u{628}\u{627}\u{6cc}\u{62f} ۲۱ \u{633}\u{627}\u{644} \u{628}\u{627}\u{634}\u{62f}."
    else if gender == "male" && ltb_ℤ age (pos 22)
    then some
        "\u{62d}\u{62f}\u{627}\u{642}\u{644} \u{633}\u{646} \u{628}\u{631}\u{627}\u{6cc} \u{622}\u{642}\u{627}\u{6cc}\u{627}\u{646} \u{628}\u{627}\u{6cc}\u{62f} ۲۲ \u{633}\u{627}\u{644} \u{628}\u{627}\u{634}\u{62f}."
    else none

abbrev pub person_fields : List String
person_fields =
    "first_name" ∷ "last_name" ∷ "father_name" ∷ "national_code" ∷ "birth_date" ∷ "gender" ∷ []

abbrev pub name_fields : List String
name_fields = "first_name" ∷ "last_name" ∷ "father_name" ∷ []

abbrev pub taken_text : String
taken_text =
    "\u{627}\u{6cc}\u{646} \u{6a9}\u{62f} \u{645}\u{644}\u{6cc} \u{642}\u{628}\u{644}\u{627}ً \u{62b}\u{628}\u{62a} \u{634}\u{62f}\u{647} \u{627}\u{633}\u{62a}."

-- the error that handleSubmit sets, or none where it goes on; `taken` is nationalCodeExists
unfoldable pub person_error : Calendar → AgeRule → Bool → (String → Entry) → Option String
person_error cal rule taken at =
    if not (every (λ k. is_given (at k)) person_fields)
    then some
        "\u{644}\u{637}\u{641}\u{627}ً \u{647}\u{645}\u{647} \u{641}\u{6cc}\u{644}\u{62f}\u{647}\u{627} \u{631}\u{627} \u{6a9}\u{627}\u{645}\u{644} \u{6a9}\u{646}\u{6cc}\u{62f}."
    else if taken
    then some taken_text
    else if not (every (λ k. is_persian (text_in (at k))) name_fields)
    then some
        "\u{641}\u{6cc}\u{644}\u{62f}\u{647}\u{627} \u{628}\u{627}\u{6cc}\u{62f} \u{628}\u{627} \u{62d}\u{631}\u{648}\u{641} \u{641}\u{627}\u{631}\u{633}\u{6cc} \u{648}\u{627}\u{631}\u{62f} \u{634}\u{648}\u{646}\u{62f}."
    else if not (is_numeric (text_in (at "national_code")))
        || not (eqb (length_text (text_in (at "national_code"))) 10)
    then some
        "\u{6a9}\u{62f} \u{645}\u{644}\u{6cc} \u{628}\u{627}\u{6cc}\u{62f} ۱۰ \u{631}\u{642}\u{645} \u{648} \u{641}\u{642}\u{637} \u{634}\u{627}\u{645}\u{644} \u{639}\u{62f}\u{62f} \u{628}\u{627}\u{634}\u{62f}."
    else rule (text_in (at "gender")) (calculate_age cal (text_in (at "birth_date")))

pub record PersonStep : Type 0 where
  pub error : String
  pub touched : List String
  pub national_code_exists : Bool

-- the step as it is shown first, and again after a way back
abbrev pub person_start : PersonStep
person_start = record { error = ""; touched = []; national_code_exists = false }

abbrev pub after_error : Option String → PersonStep → PersonStep × Bool
after_error none p = (record p { error = "" }, true)
after_error (some e) p = (record p { error = e }, false)

-- handleSubmit(e), with whether it calls `onNext`
unfoldable pub handle_submit_person : Calendar → AgeRule → Form → PersonStep → PersonStep × Bool
handle_submit_person cal rule d p =
    after_error (person_error cal rule p.national_code_exists (field_of d)) p

-- what the check of a national code says
unfoldable pub code_checked : Result Response → PersonStep → PersonStep
code_checked (ok res) p = elim res.json [
  | none ↦ p
  | some v ↦
      if truthy (get v "exists")
      then record p { error = taken_text; national_code_exists = true }
      else record p { national_code_exists = false }
]
code_checked (err e) p = p

abbrev check_request : String → Request
check_request value = record {
  url = "http://localhost:8000/api/auth/check-national-code/?code=" <> value;
  method = "GET";
  headers = [];
  body = undefined;
}

-- handleChange(e); the answer of the check may also come later than what the person does next
unfoldable pub handle_change_person :
    Server → String → String → Form → PersonStep → World → Form × PersonStep × World
handle_change_person server name value d p w =
    let d' = set_entry name (text value) d in
    let here = record p { touched = name ∷ p.touched } in
    let (r, w') = fetch server (check_request value) w in
    if name == "national_code" && eqb (length_text value) 10
    then (d', code_checked r here, w')
    else (d', here, w)
