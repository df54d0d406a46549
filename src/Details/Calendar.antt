-- ===== src/Details/Calendar.antt =====
-- CompetitionDetails.jsx: the conversion of Gregorian dates to Jalali ones for display: `jalCal`,
-- `g2d`, `d2g`, `d2j` and `gregorianToJalali`. Years, days of a month and day numbers may be
-- negative; what is divided never is, so that `div`, which truncates, is the division of ℕ.
mod Cycles
pub mod Laws
pub mod YearEnd
pub mod Shown
mod Examples
use tkd_chb.Base.{
  ℕ, zero, suc, ◌+◌, ◌-◌, ◌*◌, ◌/◌, ◌%◌, Bool, true, false, not, ◌&&◌, ◌||◌, List, [], ◌∷◌, eqb,
  leb, ltb, any, if◌then◌else◌,
}
use tkd_chb.Base.Int.{ℤ, pos, negsuc, pos_part, ◌+ℤ◌, ◌-ℤ◌, ltb_ℤ}

-- jalBreaks, but for the first, which is -61
abbrev pub jal_breaks : List ℕ
jal_breaks =
    9 ∷ 38 ∷ 199 ∷ 426 ∷ 686 ∷ 756 ∷ 818 ∷ 1111 ∷ 1181 ∷ 1210 ∷ 1635 ∷ 2060 ∷ 2097 ∷ 2192 ∷ 2262
    ∷ 2324 ∷ 2394 ∷ 2456 ∷ 3178 ∷ []

pub record Leaps : Type 0 where
  pub leap_j : ℤ
  pub jp : ℤ
  pub jump : ℕ

-- the loop over the breaks; `pos_part` is of the distance from one break to the next
unfoldable pub walk_breaks : ℤ → List ℕ → Leaps → Leaps
walk_breaks jy [] l = l
walk_breaks jy (jm ∷ rest) l =
    let jump = pos_part (pos jm -ℤ l.jp) in
    let here = record l { jump = jump } in
    let later = walk_breaks jy rest (record {
      leap_j = l.leap_j +ℤ pos (jump / 33 * 8 + jump % 33 / 4);
      jp = pos jm;
      jump = jump;
    }) in
    if ltb_ℤ jy (pos jm) then here else later

pub record JalYear : Type 0 where
  pub gy : ℤ
  pub march : ℤ
  pub leap : Bool

-- leapG
unfoldable pub leap_g : ℕ → ℤ
leap_g gy = pos (gy / 4) -ℤ pos ((gy / 100 + 1) / 4) +ℤ pos (gy / 400) -ℤ pos 70

-- leapJ after the loop, with the years since the last break
unfoldable pub leap_j_of : ℤ → Leaps → ℤ
leap_j_of jy l =
    let n = pos_part (jy -ℤ l.jp) in
    let count = l.leap_j +ℤ pos (n / 33 * 8 + n % 33 / 4) in
    if eqb (l.jump % 33) 4 && eqb l.jump (n + 4) then count +ℤ pos 1 else count

-- jalCal(jy)
unfoldable pub jal_cal : ℤ → JalYear
jal_cal jy =
    let gy = jy +ℤ pos 621 in
    let l = walk_breaks jy jal_breaks (record { leap_j = negsuc 13; jp = negsuc 60; jump = 0 }) in
    let n = pos_part (jy -ℤ l.jp) in
    if ltb_ℤ jy (negsuc 60) || not (ltb_ℤ jy (pos 3178))
    then record { gy = gy; march = pos 20; leap = false }
    else record {
      gy = gy;
      march = pos 20 +ℤ leap_j_of jy l -ℤ leap_g (pos_part gy);
      leap = any (λ k. eqb k (n % 33)) (1 ∷ 5 ∷ 9 ∷ 13 ∷ 17 ∷ 22 ∷ 26 ∷ 30 ∷ []);
    }

-- the years since 4800 BC that begin in March
unfoldable pub march_years : ℤ → ℕ → ℕ
march_years gy gm = pos_part (gy +ℤ pos 4800 -ℤ pos ((14 - gm) / 12))

abbrev pub march_month : ℕ → ℕ
march_month gm = gm + 12 * ((14 - gm) / 12) - 3

-- the days before a month that begins in March
unfoldable pub days_before : ℕ → ℕ → ℕ
days_before y m = 365 * y + y / 4 - y / 100 + y / 400 + (153 * m + 2) / 5

-- g2d(gy, gm, gd), for a month from 1 to 12
unfoldable pub g2d : ℤ → ℕ → ℤ → ℤ
g2d gy gm gd = gd +ℤ pos (days_before (march_years gy gm) (march_month gm)) -ℤ pos 32045

pub record Gregorian : Type 0 where
  pub gy : ℤ
  pub gm : ℕ
  pub gd : ℤ

-- d2g(jdn), from j on
unfoldable pub d2g_from : ℕ → Gregorian
d2g_from j =
    let g = j / 146097 in
    let dg = j % 146097 in
    let c = (dg / 36524 + 1) * 3 / 4 in
    let dc = dg - c * 36524 in
    let b = dc / 1461 in
    let db = dc % 1461 in
    let a = (db / 365 + 1) * 3 / 4 in
    let da = db - a * 365 in
    let m = (5 * da + 308) / 153 - 2 in
    record {
      gy = pos (g * 400 + c * 100 + b * 4 + a + (m + 2) / 12) -ℤ pos 4800;
      gm = (m + 2) % 12 + 1;
      gd = pos (da + 1) -ℤ pos ((153 * (m + 2) + 2) / 5);
    }

unfoldable pub d2g : ℤ → Gregorian
d2g jdn = d2g_from (pos_part (jdn +ℤ pos 32044))

pub record Jalali : Type 0 where
  pub jy : ℤ
  pub jm : ℕ
  pub jd : ℕ

-- the month and the day of the `jd`-th day of a year
unfoldable pub jal_day : ℤ → ℕ → Jalali
jal_day jy jd =
    if leb jd 186
    then record { jy = jy; jm = 1 + (jd - 1) / 31; jd = jd - 31 * ((jd - 1) / 31) }
    else record {
      jy = jy;
      jm = 7 + (jd - 186 - 1) / 30;
      jd = jd - 186 - 30 * ((jd - 186 - 1) / 30);
    }

-- d2j(jdn)
unfoldable pub d2j : ℤ → Jalali
d2j jdn =
    let gy = (d2g jdn).gy in
    let jy = gy -ℤ pos 621 in
    let first = g2d gy 3 (jal_cal jy).march in
    let before = g2d (gy -ℤ pos 1) 3 (jal_cal (jy -ℤ pos 1)).march in
    if ltb_ℤ jdn first
    then jal_day (jy -ℤ pos 1) (pos_part (jdn -ℤ before +ℤ pos 1))
    else jal_day jy (pos_part (jdn -ℤ first +ℤ pos 1))

-- gregorianToJalali(gy, gm, gd)
unfoldable pub gregorian_to_jalali : ℕ → ℕ → ℕ → Jalali
gregorian_to_jalali gy gm gd = d2j (g2d (pos gy) gm (pos gd))
