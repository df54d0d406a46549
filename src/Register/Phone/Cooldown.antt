-- ===== src/Register/Phone/Cooldown.antt =====
-- The end of a cooldown.

use tkd_chb.Base.{
  ◌≡◌, refl, ◌∙◌, ap, ℕ, zero, suc, ◌-◌, true, false, Option, none, some, ltb, arith, Bool-cases,
  inl, inr,
}
use tkd_chb.Register.Phone.{at_code, Signup, settle_at, settle, tick_at, tick, ticks, waiting}

tick-free :
    (t : Option ℕ) (s : Signup) → s.cooldown_active ≡ false → (tick_at t s).cooldown_active ≡ false
tick-free none s h = h
tick-free (some n) s h = rw h refl

ticks-free : (n : ℕ) (s : Signup) → s.cooldown_active ≡ false → (ticks n s).cooldown_active ≡ false
unfolding ticks tick
ticks-free zero s h = h
ticks-free (suc n) s h = ticks-free n (tick s) (tick-free s.timer s h)

settle_later : (n : ℕ) (s : Signup) → settle_at (some (suc n)) s ≡ s
settle_later n s = ground arith

tick_counts :
    (n : ℕ) (s : Signup)
    → s.cooldown_active ≡ true
    → tick (record s { timer = some (suc n) }) ≡ settle (record s { timer = some n })
unfolding tick
tick_counts n s active =
    let later : ltb 0 (suc n) ≡ true = ground arith in
    let one : suc n - 1 ≡ n = omega arith in simp (active, later, one)

ticks-counted :
    (n : ℕ) (s : Signup) → (ticks n (settle (record s { timer = some n }))).cooldown_active ≡ false
unfolding ticks settle
ticks-counted zero s = ground arith
ticks-counted (suc n) s =
    rw (settle_later n (record s { timer = some (suc n) })) (elim (Bool-cases s.cooldown_active) [
      | inl active ↦
          ap (λ t. (ticks n t).cooldown_active) (tick_counts n s active) ∙ ticks-counted n s
      | inr free ↦ ticks-free (suc n) (record s { timer = some (suc n) }) free
    ])

-- After n seconds a cooldown of n seconds is over, and a code can be sent again.
pub ticks-opens : (n : ℕ) (s : Signup) → (ticks n (waiting (some n) s)).cooldown_active ≡ false
ticks-opens n s = ticks-counted n (record s { step = at_code; cooldown_active = true })
