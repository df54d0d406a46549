-- ===== src/Details/Calendar/Shown.antt =====
-- CompetitionDetails.jsx: `isoToJalaliFa` and `pad2`, the text of a date as the page shows it. A month
-- above 25, which no date has, would go by another division than the one of Calendar.
use Prim.Native.Char.{Char, code}
use Prim.Native.String.{[], ◌∷◌, ◌++◌ as ◌<>◌}
use tkd_chb.Base.{ℕ, zero, suc, String, ◌==◌, Option, none, some, eqb, ltb, if◌then◌else◌}
use tkd_chb.Base.Int.{pos_part}
use tkd_chb.Base.Text.{trim, map_chars, slice_to, length_text, nth_char, show_number}
use tkd_chb.Base.Digits.{is_digit, normalize_digits, strip_rtl_marks, to_fa}
use tkd_chb.Base.Js.{Js, str, truthy, is_nullish, to_text}
use tkd_chb.Students.Ids.{digits_value}
use tkd_chb.Details.Calendar.{Jalali, gregorian_to_jalali}

-- String(n).padStart(2, "0")
unfoldable pub pad2 : ℕ → String
pad2 n = if ltb n 10 then "0" <> show_number n else show_number n

-- up to `n` digits at the start of a text, and what stands after them
unfoldable pub take_digits : ℕ → String → String × String
take_digits zero s = ([], s)
take_digits (suc n) [] = ([], [])
take_digits (suc n) (c ∷ s) =
    let (digits, rest) = take_digits n s in if is_digit c then (c ∷ digits, rest) else ([], c ∷ s)

-- the text after a hyphen at the start
unfoldable pub after_hyphen : String → Option String
after_hyphen [] = none
after_hyphen (c ∷ s) = if eqb (code c) 45 then some s else none

pub record IsoDate : Type 0 where
  pub gy : ℕ
  pub gm : ℕ
  pub gd : ℕ

-- (\d{1,2}), the last part
unfoldable pub iso_day : ℕ → ℕ → Option String → Option IsoDate
iso_day gy gm none = none
iso_day gy gm (some s) =
    let (digits, rest) = take_digits 2 s in
    if digits == "" then none else some (record { gy = gy; gm = gm; gd = digits_value 0 digits })

-- (\d{1,2})-
unfoldable pub iso_month : ℕ → Option String → Option IsoDate
iso_month gy none = none
iso_month gy (some s) =
    let (digits, rest) = take_digits 2 s in
    if digits == "" then none else iso_day gy (digits_value 0 digits) (after_hyphen rest)

-- s.match(/^(\d{4})-(\d{1,2})-(\d{1,2})/)
unfoldable pub iso_match : String → Option IsoDate
iso_match s =
    let (digits, rest) = take_digits 4 s in
    if eqb (length_text digits) 4
    then iso_month (digits_value 0 digits) (after_hyphen rest)
    else none

abbrev slash_char : Char → Char
slash_char c = if eqb (code c) 45 then nth_char "/" 0 else c

abbrev jalali_text : Jalali → String
jalali_text j = show_number (pos_part j.jy) <> "/" <> pad2 j.jm <> "/" <> pad2 j.jd

abbrev pub shown_date : String → Option IsoDate → String
shown_date s none = to_fa (slice_to 10 (map_chars slash_char s))
shown_date s (some d) =
    if ltb d.gy 1700
    then to_fa (show_number d.gy <> "/" <> pad2 d.gm <> "/" <> pad2 d.gd)
    else to_fa (jalali_text (gregorian_to_jalali d.gy d.gm d.gd))

-- isoToJalaliFa(iso)
unfoldable pub iso_to_jalali_fa : Js → String
iso_to_jalali_fa iso =
    let s =
      trim (strip_rtl_marks (normalize_digits (if is_nullish iso then "" else to_text iso))) in
    shown_date s (iso_match s)

abbrev shown_norm : String → Option IsoDate → String
shown_norm norm none = to_fa (map_chars slash_char (slice_to 10 norm))
shown_norm norm (some d) = iso_to_jalali_fa (str norm)

-- fmtDateFa(val)
unfoldable pub fmt_date_fa : Js → String
fmt_date_fa val =
    let norm = strip_rtl_marks (normalize_digits (to_text val)) in
    if truthy val then shown_norm norm (iso_match norm) else "—"
