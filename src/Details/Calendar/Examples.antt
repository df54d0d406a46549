-- ===== src/Details/Calendar/Examples.antt =====
-- The conversion at concrete dates.
use tkd_chb.Base.{◌≡◌, refl, arith}
use tkd_chb.Base.Int.{pos, negsuc, ◌+ℤ◌, ◌-ℤ◌}
use tkd_chb.Details.Calendar.{
  march_years, days_before, g2d, d2g_from, d2g, gregorian_to_jalali, d2j, jal_day, jal_cal,
  walk_breaks, leap_g, leap_j_of,
}
use tkd_chb.Details.Calendar.Laws.{d2g-g2d}
use tkd_chb.Details.Calendar.YearEnd.{gregorian_to_jalali-month_13}

test_march : (jal_cal (pos 1403)).march ≡ negsuc 74
unfolding jal_cal walk_breaks leap_g leap_j_of ◌+ℤ◌ ◌-ℤ◌
test_march = refl

test_shown : gregorian_to_jalali 2024 3 20 ≡ record { jy = pos 1403; jm = 4; jd = 3 }
unfolding gregorian_to_jalali d2j jal_day g2d d2g d2g_from days_before march_years jal_cal
    walk_breaks leap_g leap_j_of ◌+ℤ◌ ◌-ℤ◌
test_shown = refl

d2g-g2d_example :
    ((d2g (g2d (pos 2024) 2 (pos 29))).gy ≡ pos 2024) × ((d2g (g2d (pos 2024) 2 (pos 29))).gm ≡ 2)
d2g-g2d_example =
    d2g-g2d 2024 2 29
      (record { year_in = omega arith; month_in = omega arith; day_in = omega arith })

gregorian_to_jalali-month_13_example : (gregorian_to_jalali 2025 12 31).jm ≡ 13
gregorian_to_jalali-month_13_example = gregorian_to_jalali-month_13 2025 (omega arith) (omega arith)
