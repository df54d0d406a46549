-- ===== src/Details/Calendar/Laws.antt =====
-- What the conversion keeps of a date.
use tkd_chb.Base.{
  ◌≡◌, sym, ap, ◌∙◌, ℕ, suc, ◌+◌, ◌-◌, ◌*◌, ◌/◌, ◌%◌, ◌≤◌, Bool, not, ◌&&◌, ◌||◌, ◌⊎◌, eqb, arith,
  if◌then◌else◌,
}
use tkd_chb.Base.Int.{pos, pos_part, ◌+ℤ◌, ◌-ℤ◌}
use tkd_chb.Details.Calendar.{march_years, march_month, days_before, g2d, d2g_from, d2g}
use tkd_chb.Details.Calendar.Cycles.{Cycles, number, IsCycles, from_day, d2g_from-number}

-- A year of the Gregorian calendar with a February of 29 days.
abbrev pub is_leap : ℕ → Bool
is_leap y = eqb (y % 4) 0 && (not (eqb (y % 100) 0) || eqb (y % 400) 0)

abbrev pub days_in_month : ℕ → ℕ → ℕ
days_in_month y m =
    if eqb m 2
    then (if is_leap y then 29 else 28)
    else if eqb m 4 || eqb m 6 || eqb m 9 || eqb m 11
    then 30
    else 31

-- A date of the Gregorian calendar from the year 1 on.
pub record IsDate (y m d : ℕ) : Type 0 where
  pub year_in : 1 ≤ y
  pub month_in : (1 ≤ m) × (m ≤ 12)
  pub day_in : (1 ≤ d) × (d ≤ days_in_month y m)

-- The cycles of a date, and its day since the first of March.
abbrev day_number : ℕ → ℕ → ℕ
day_number m d = (153 * march_month m + 2) / 5 + d - 1

cycles_of : ℕ → ℕ → Cycles
cycles_of y day = record { g = y / 400; c = y % 400 / 100; b = y % 100 / 4; a = y % 4; day = day }

month_fits :
    (y m d : ℕ)
    → IsDate y m d
    → (march_month m ≤ 11)
      × (d + (153 * march_month m + 2) / 5 ≤ (153 * (march_month m + 1) + 2) / 5)
month_fits y m d v = ground arith

month_found :
    (m day : ℕ)
    → (153 * m + 2) / 5 ≤ day
    → suc day ≤ (153 * (m + 1) + 2) / 5
    → (5 * day + 308) / 153 - 2 ≡ m
month_found m day lo hi = omega arith

-- The years since the first of March 4800 BC.
abbrev years_since : ℕ → ℕ → ℕ
years_since y m = y + 4800 - (14 - m) / 12

march_years-pos : (y m : ℕ) → march_years (pos y) m ≡ years_since y m
unfolding march_years ◌+ℤ◌ ◌-ℤ◌
march_years-pos y m = ground arith

leap_end :
    (y m d : ℕ)
    → IsDate y m d
    → (day_number m d ≤ 364)
      ⊎ ((years_since y m % 4 ≡ 3)
          × ((years_since y m % 100 / 4 ≤ 23) ⊎ (years_since y m % 400 / 100 ≡ 3)))
leap_end y m d v = ground (arith, v.month_in, v.day_in)

cycles_of-IsCycles :
    (y m d : ℕ) → IsDate y m d → IsCycles (cycles_of (years_since y m) (day_number m d))
unfolding cycles_of
cycles_of-IsCycles y m d v = record {
  c_in = omega arith;
  b_in = omega arith;
  a_in = omega arith;
  day_in = ground (arith, v.month_in, v.day_in);
  last = leap_end y m d v;
}

number-days_before :
    (y m d : ℕ)
    → 1 ≤ d
    → number (cycles_of y (day_number m d)) ≡ days_before y (march_month m) + d - 1
unfolding cycles_of days_before
number-days_before y m d h = omega arith

pos_part-g2d :
    (y m d : ℕ)
    → pos_part (g2d (pos y) m (pos d) +ℤ pos 32044)
      ≡ days_before (march_years (pos y) m) (march_month m) + d - 1
unfolding g2d ◌+ℤ◌ ◌-ℤ◌
pos_part-g2d y m d = ground arith

year_found :
    (y m : ℕ)
    → (1 ≤ m) × (m ≤ 12)
    → pos (years_since y m + (march_month m + 2) / 12) -ℤ pos 4800 ≡ pos y
unfolding ◌-ℤ◌
year_found y m h = ground arith

month_number : (m : ℕ) → (1 ≤ m) × (m ≤ 12) → (march_month m + 2) % 12 + 1 ≡ m
month_number m h = omega arith

-- A Gregorian date from the year 1 on, as a day number and back: `d2g` gives the year and the month
-- of the date that `g2d` was given.
pub d2g-g2d :
    (y m d : ℕ)
    → IsDate y m d
    → ((d2g (g2d (pos y) m (pos d))).gy ≡ pos y) × ((d2g (g2d (pos y) m (pos d))).gm ≡ m)
unfolding d2g cycles_of
d2g-g2d y m d v =
    let day = day_number m d in
    let t = cycles_of (years_since y m) day in
    let index =
      pos_part-g2d y m d
      ∙ ap (λ n. days_before n (march_month m) + d - 1) (march_years-pos y m)
      ∙ sym (number-days_before (years_since y m) m d v.day_in.0) in
    let whole = years_whole (years_since y m) in
    let at =
      month_found (march_month m) day (omega (arith, v.day_in))
        (omega (arith, month_fits y m d v, v.day_in)) in
    let found =
      ap d2g_from index
      ∙ d2g_from-number t (cycles_of-IsCycles y m d v)
      ∙ ap (λ n. from_day n day) whole in
    (
      ap (λ r. r.gy) found ∙ rw at (year_found y m v.month_in),
      ap (λ r. r.gm) found ∙ rw at (month_number m v.month_in),
    )
  where
    years_whole : (n : ℕ) → n / 400 * 400 + n % 400 / 100 * 100 + n % 100 / 4 * 4 + n % 4 ≡ n
    years_whole n = omega arith
