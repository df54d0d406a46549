-- ===== src/Details/Window.antt =====
-- CompetitionDetails.jsx: whether the registration for a competition is open, and the buttons that
-- depend on it. The dates of JavaScript are a parameter: `date_of y m d` is the time of
-- `new Date(y, m - 1, d)`, and `today` the time of `stripTime(new Date())`.
pub mod Laws
use Prim.Native.Nat.{ℕ, ◌+◌, ◌*◌, ◌-◌}
use Prim.Native.Char.{Char, code}
use Prim.Native.String
use tkd_chb.Base.{
  String, ◌==◌, Bool, true, false, not, ◌&&◌, ◌||◌, Option, none, some, List, [], ◌∷◌, eqb, leb,
  if◌then◌else◌,
}
use tkd_chb.Base.Text.{to_lower_case, nth_char, length_text}
use tkd_chb.Base.Digits.{is_digit, normalize_digits, strip_rtl_marks}
use tkd_chb.Base.Js.{Js, undefined, bool, str, truthy, coalesce, or_else, get, to_text}
use tkd_chb.Details.Eligibility.{one_of, eligibility, Discipline, kyorugi, poomsae}

pub record Clock : Type 0 where
  pub today : ℕ
  pub date_of : ℕ → ℕ → ℕ → ℕ

-- /^\d{4}-\d{2}-\d{2}/
abbrev has_date : String → Bool
has_date s =
    is_digit (nth_char s 0)
    && is_digit (nth_char s 1)
    && is_digit (nth_char s 2)
    && is_digit (nth_char s 3)
    && eqb (code (nth_char s 4)) 45
    && is_digit (nth_char s 5)
    && is_digit (nth_char s 6)
    && eqb (code (nth_char s 7)) 45
    && is_digit (nth_char s 8)
    && is_digit (nth_char s 9)

abbrev digit_at : String → ℕ → ℕ
digit_at s i = code (nth_char s i) - 48

abbrev date_in : Clock → String → ℕ
date_in clock s =
    clock.date_of (1000 * digit_at s 0 + 100 * digit_at s 1 + 10 * digit_at s 2 + digit_at s 3)
      (10 * digit_at s 5 + digit_at s 6) (10 * digit_at s 8 + digit_at s 9)

-- toDateSafe(s)
unfoldable pub to_date_safe : Clock → Js → Option ℕ
to_date_safe clock (str t) =
    let s = strip_rtl_marks (normalize_digits t) in
    if has_date s then some (date_in clock s) else none
to_date_safe clock _ = none

abbrev first_date : Option ℕ → Option ℕ → Option ℕ
first_date none d = d
first_date (some t) d = some t

-- competitionDate
unfoldable pub competition_date : Clock → Discipline → Js → Option ℕ
competition_date clock kyorugi comp = to_date_safe clock (get comp "competition_date")
competition_date clock poomsae comp =
    first_date (to_date_safe clock (get comp "start_date"))
      (to_date_safe clock (get comp "competition_date"))

abbrev pub within : ℕ → Option ℕ → Option ℕ → Bool → Bool
within today (some s) (some e) flag = leb s today && leb today e
within today _ _ flag = flag

-- inRegWindow: the dates where both are known, and else the flag
unfoldable pub in_reg_window : Clock → Js → Bool
in_reg_window clock comp =
    within clock.today (to_date_safe clock (get comp "registration_start"))
      (to_date_safe clock (get comp "registration_end")) (truthy (get comp "registration_open"))

-- statusSaysOpen
unfoldable pub status_says_open : Js → Bool
status_says_open comp =
    one_of (to_lower_case (to_text (or_else (get comp "status") (str ""))))
      ("open" ∷ "registration_open" ∷ "reg_open" ∷ "opened" ∷ [])

abbrev pub reg_open_eff : Js → Js
reg_open_eff comp = coalesce (get comp "registration_open_effective") (get comp "registration_open")

abbrev pub reg_manual : Js → Js
reg_manual comp = coalesce (get comp "registration_manual") (get comp "registration_manual_open")

-- registrationOpenBase
abbrev pub bool_or : Js → Bool → Bool
bool_or (bool b) r = b
bool_or _ r = r

unfoldable pub registration_open_base : Clock → Js → Bool
registration_open_base clock comp = bool_or (reg_open_eff comp) (
    bool_or (reg_manual comp) (
      bool_or (get comp "can_register")
        (if status_says_open comp then true else in_reg_window clock comp)))

abbrev is_yes : Option Bool → Bool
is_yes none = false
is_yes (some b) = b

-- canClickSelf
unfoldable pub can_click_self : Clock → Js → Js → Bool
can_click_self clock comp locked =
    registration_open_base clock comp && is_yes (eligibility comp locked)

-- canClickCoachRegister
unfoldable pub can_click_coach_register : Clock → Js → Bool
can_click_coach_register clock comp = registration_open_base clock comp

abbrev pub is_no : Js → Bool
is_no (bool b) = not b
is_no _ = false

-- coachDisableReason
unfoldable pub coach_disable_reason : Clock → Js → String
coach_disable_reason clock comp =
    if is_no (reg_manual comp)
    then "\u{62b}\u{628}\u{62a}\u{200c}\u{646}\u{627}\u{645} \u{62a}\u{648}\u{633}\u{637} \u{627}\u{62f}\u{645}\u{6cc}\u{646} \u{628}\u{633}\u{62a}\u{647} \u{634}\u{62f}\u{647} \u{627}\u{633}\u{62a}"
    else if registration_open_base clock comp
    then ""
    else if in_reg_window clock comp
    then "\u{62b}\u{628}\u{62a}\u{200c}\u{646}\u{627}\u{645} \u{627}\u{6cc}\u{646} \u{645}\u{633}\u{627}\u{628}\u{642}\u{647} \u{641}\u{639}\u{627}\u{644} \u{646}\u{6cc}\u{633}\u{62a}"
    else "\u{62e}\u{627}\u{631}\u{62c} \u{627}\u{632} \u{628}\u{627}\u{632}\u{647} \u{62b}\u{628}\u{62a}\u{200c}\u{646}\u{627}\u{645}"
