-- ===== src/Details/Calendar/Cycles.antt =====
-- The cycles of years that `d2g` counts the days by.
use tkd_chb.Base.{◌≡◌, refl, ℕ, ◌+◌, ◌-◌, ◌*◌, ◌/◌, ◌%◌, ◌≤◌, ◌<◌, ◌⊎◌, arith}
use tkd_chb.Base.Int.{pos, ◌-ℤ◌}
use tkd_chb.Details.Calendar.{Gregorian, d2g_from}

-- The digits of a day number in the cycles of 400, 100, 4 and 1 years, with the day of the year,
-- which is the 366th only at the end of a leap year that begins in March.
pub record Cycles : Type 0 where
  pub g : ℕ
  pub c : ℕ
  pub b : ℕ
  pub a : ℕ
  pub day : ℕ

abbrev pub number : Cycles → ℕ
number t = 146097 * t.g + (36524 * t.c + (1461 * t.b + (365 * t.a + t.day)))

pub record IsCycles (t : Cycles) : Type 0 where
  pub c_in : t.c ≤ 3
  pub b_in : t.b ≤ 24
  pub a_in : t.a ≤ 3
  pub day_in : t.day ≤ 365
  pub last : (t.day ≤ 364) ⊎ ((t.a ≡ 3) × ((t.b ≤ 23) ⊎ (t.c ≡ 3)))

-- The day of a century is within it, but for the last day of a leap century.
century_day :
    (c b a day : ℕ)
    → b ≤ 24
    → a ≤ 3
    → day ≤ 365
    → (day ≤ 364) ⊎ ((a ≡ 3) × ((b ≤ 23) ⊎ (c ≡ 3)))
    → (1461 * b + (365 * a + day) < 36524) ⊎ ((c ≡ 3) × (1461 * b + (365 * a + day) ≡ 36524))
century_day c b a day hb ha hd last = ground arith

four_year_day :
    (P : Type 0) (a day : ℕ)
    → a ≤ 3
    → day ≤ 365
    → (day ≤ 364) ⊎ ((a ≡ 3) × P)
    → (365 * a + day < 1461) × ((day ≤ 364) ⊎ (a ≡ 3))
four_year_day P a day ha hd last = ground arith

by_400 : (g r : ℕ) → r < 146097 → ((146097 * g + r) / 146097 ≡ g) × ((146097 * g + r) % 146097 ≡ r)
by_400 g r h = omega arith

by_100 :
    (c r : ℕ)
    → c ≤ 3
    → (r < 36524) ⊎ ((c ≡ 3) × (r ≡ 36524))
    → (((36524 * c + r) / 36524 + 1) * 3 / 4 ≡ c) × (36524 * c + r - c * 36524 ≡ r)
by_100 c r h k = ground arith

by_4 : (b r : ℕ) → r < 1461 → ((1461 * b + r) / 1461 ≡ b) × ((1461 * b + r) % 1461 ≡ r)
by_4 b r h = omega arith

by_1 :
    (a r : ℕ)
    → a ≤ 3
    → r ≤ 365
    → (r ≤ 364) ⊎ (a ≡ 3)
    → (((365 * a + r) / 365 + 1) * 3 / 4 ≡ a) × (365 * a + r - a * 365 ≡ r)
by_1 a r h k l = ground arith

-- What `d2g` computes of the days since the first of March.
abbrev pub from_day : ℕ → ℕ → Gregorian
from_day y da =
    let m = (5 * da + 308) / 153 - 2 in
    record {
      gy = pos (y + (m + 2) / 12) -ℤ pos 4800;
      gm = (m + 2) % 12 + 1;
      gd = pos (da + 1) -ℤ pos ((153 * (m + 2) + 2) / 5);
    }

pub d2g_from-number :
    (t : Cycles)
    → IsCycles t
    → d2g_from (number t) ≡ from_day (t.g * 400 + t.c * 100 + t.b * 4 + t.a) t.day
unfolding d2g_from
d2g_from-number t v =
    let in_year = four_year_day ((t.b ≤ 23) ⊎ (t.c ≡ 3)) t.a t.day v.a_in v.day_in v.last in
    let in_century = century_day t.c t.b t.a t.day v.b_in v.a_in v.day_in v.last in
    let in_cycle : 36524 * t.c + (1461 * t.b + (365 * t.a + t.day)) < 146097 =
      ground (arith, in_century, v.c_in) in
    let (g, dg) = by_400 t.g (36524 * t.c + (1461 * t.b + (365 * t.a + t.day))) in_cycle in
    let (c, dc) = by_100 t.c (1461 * t.b + (365 * t.a + t.day)) v.c_in in_century in
    let (b, db) = by_4 t.b (365 * t.a + t.day) in_year.0 in
    let (a, da) = by_1 t.a t.day v.a_in v.day_in in_year.1 in
    rw (g, dg) (rw c (rw dc (rw (b, db) (rw a (rw da refl)))))
