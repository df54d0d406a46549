-- ===== src/Details/Form/Laws.antt =====
-- Which forms the validation accepts.
use tkd_chb.Base.{
  ◌≡◌, ◌↔◌, ℕ, ◌≤◌, String, Bool, true, false, not, ◌&&◌, Option, none, some, [], arith,
}
use tkd_chb.Base.Int.{pos, ◌-ℤ◌}
use tkd_chb.Base.Digits.{sanitize_weight, is_weight}
use tkd_chb.Base.Js.{Js, truthy, to_text}
use tkd_chb.Details.Form.{
  Picker, Errors, Form, when, is_blank, parse_jalali, min_ok_72h, oldest_1y, issue_errors,
  date_errors, last_errors, validate_ky, validate_po,
}

-- The date of issue is not before the competition's day with its year less one, and not after it with
-- its day of the month less three.
abbrev pub InTime : Picker → ℕ → Option ℕ → Type 0
InTime picker day none = true ≡ false
InTime picker day (some t) =
    (picker.set_full_year day (pos (picker.get_full_year day) -ℤ pos 1) ≤ t)
    × (t ≤ picker.set_date day (pos (picker.get_date day) -ℤ pos 3))

abbrev pub IsDated : Picker → Option ℕ → Js → Type 0
IsDated picker none v = true ≡ true
IsDated picker (some day) v = InTime picker day (parse_jalali picker v)

-- What both forms need besides: a coach's code where one is asked for, the confirmation, and the
-- number of the insurance.
abbrev pub IsSigned : Form → Type 0
IsSigned reg =
    (reg.need_coach_code && is_blank reg.coach_code ≡ false)
    × (reg.confirmed ≡ true)
    × (is_blank reg.insurance_number ≡ false)

when-nil :
    (wrong : Bool) (key text : String) (rest : Errors)
    → (when wrong key text rest ≡ []) ↔ ((wrong ≡ false) × (rest ≡ []))
when-nil wrong key text rest = ground arith

issue_errors-nil :
    (picker : Picker) (day : ℕ) (t : Option ℕ) (rest : Errors)
    → (issue_errors picker day t rest ≡ []) ↔ (InTime picker day t × (rest ≡ []))
unfolding issue_errors min_ok_72h oldest_1y
issue_errors-nil picker day none rest = ground arith
issue_errors-nil picker day (some t) rest = ground arith

date_errors-nil :
    (picker : Picker) (day : Option ℕ) (v : Js) (rest : Errors)
    → (date_errors picker day v rest ≡ []) ↔ (IsDated picker day v × (rest ≡ []))
unfolding date_errors
date_errors-nil picker none v rest = ground arith
date_errors-nil picker (some day) v rest = issue_errors-nil picker day (parse_jalali picker v) rest

last_errors-nil : (reg : Form) → (last_errors reg ≡ []) ↔ IsSigned reg
unfolding last_errors
last_errors-nil reg = ground arith

chained :
    {D S : Type 0} (b : Bool) (p q r : Errors)
    → (p ≡ []) ↔ ((not b ≡ false) × (q ≡ []))
    → (q ≡ []) ↔ (D × (r ≡ []))
    → (r ≡ []) ↔ S
    → (p ≡ []) ↔ ((b ≡ true) × D × S)
chained b p q r first second third = (
  λ e. let (x, y) = first.0 e in let (d, z) = second.0 y in (ground arith, d, third.0 z),
  λ h. first.1 (ground (arith, h.0), second.1 (h.1, third.1 h.2)),
)

-- The form of kyorugi passes exactly when the weight is a number, the insurance is dated at most a
-- year and at least three days before the competition, where its day is known, and the rest is filled
-- in. The year and the days are taken off by the date arithmetic of the browser, a parameter.
pub validate_ky_iff :
    (picker : Picker) (day : Option ℕ) (reg : Form)
    → (validate_ky picker day reg ≡ []) ↔ (
        (is_weight (sanitize_weight (to_text reg.weight)) ≡ true)
        × IsDated picker day reg.insurance_issue_date
        × IsSigned reg)
unfolding validate_ky
validate_ky_iff picker day reg =
    chained (is_weight (sanitize_weight (to_text reg.weight))) _ _ (last_errors reg)
      (when-nil _ "weight" _ _)
      (date_errors-nil picker day reg.insurance_issue_date (last_errors reg)) (last_errors-nil reg)

-- The form of poomsae passes exactly when a type is chosen, the insurance is dated at most a year and
-- at least three days before the competition, where its day is known, and the rest is filled in. The
-- year and the days are taken off by the date arithmetic of the browser, a parameter.
pub validate_po_iff :
    (picker : Picker) (day : Option ℕ) (reg : Form)
    → (validate_po picker day reg ≡ []) ↔ (
        (truthy reg.poomsae_type ≡ true)
        × IsDated picker day reg.insurance_issue_date
        × IsSigned reg)
unfolding validate_po
validate_po_iff picker day reg =
    chained (truthy reg.poomsae_type) _ _ (last_errors reg) (when-nil _ "poomsae_type" _ _)
      (date_errors-nil picker day reg.insurance_issue_date (last_errors reg)) (last_errors-nil reg)
