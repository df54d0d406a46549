-- ===== src/Details/Calendar/YearEnd.antt =====
-- The months at the end of the Gregorian year.
use tkd_chb.Base.{
  ◌≡◌, refl, ℕ, zero, suc, ◌+◌, ◌≤◌, ◌<◌, Bool, true, ◌&&◌, eqb, eqb_iff, Bool-cases, inl, inr,
  arith,
}
use tkd_chb.Base.Int.{◌+ℤ◌, ◌-ℤ◌}
use tkd_chb.Details.Calendar.{
  march_years, days_before, g2d, d2g_from, d2g, gregorian_to_jalali, d2j, jal_day, jal_cal,
  walk_breaks, leap_g, leap_j_of,
}

-- Every number of a range passes a test that is computed for all of them.
abbrev every_from : ℕ → ℕ → (ℕ → Bool) → Bool
every_from start zero p = true
every_from start (suc n) p = p start && every_from (suc start) n p

every_from-true :
    (start n : ℕ) (p : ℕ → Bool)
    → every_from start n p ≡ true
    → (k : ℕ) → start ≤ k
    → k < start + n
    → p k ≡ true
every_from-true start zero p h k lo hi = absurd (omega arith)
every_from-true start (suc n) p h k lo hi = elim (Bool-cases (eqb k start)) [
  | inl same ↦ rw ((eqb_iff k start).0 same) (ground arith)
  | inr other ↦ every_from-true (suc start) n p (ground arith) k (ground arith) (omega arith)
]

last_day_month : ℕ → Bool
last_day_month y = eqb (gregorian_to_jalali y 12 31).jm 13

all_last_days : every_from 1900 199 last_day_month ≡ true
unfolding last_day_month gregorian_to_jalali d2j jal_day g2d d2g d2g_from days_before march_years
    jal_cal walk_breaks leap_g leap_j_of ◌+ℤ◌ ◌-ℤ◌
all_last_days = refl

-- In every year from 1900 to 2098 the last day of December is shown in the month 13, which the
-- Jalali calendar does not have.
pub gregorian_to_jalali-month_13 :
    (y : ℕ) → 1900 ≤ y → y ≤ 2098 → (gregorian_to_jalali y 12 31).jm ≡ 13
unfolding last_day_month
gregorian_to_jalali-month_13 y lo hi =
    (eqb_iff _ 13).0 (every_from-true 1900 199 last_day_month all_last_days y lo (omega arith))
