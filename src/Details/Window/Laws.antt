-- ===== src/Details/Window/Laws.antt =====
-- Who decides whether the registration is open, and when the coach's button gives a reason.
use tkd_chb.Base.{
  ◌≡◌, ◌≢◌, ◌↔◌, refl, ℕ, ◌≤◌, String, Bool, true, false, Option, none, some, List, [], ◌∷◌,
  if◌then◌else◌, arith,
}
use tkd_chb.Base.Js.{Js, bool, get}
use tkd_chb.Details.Window.{
  Clock, to_date_safe, in_reg_window, status_says_open, reg_open_eff, reg_manual,
  registration_open_base, can_click_coach_register, coach_disable_reason, is_no,
}

-- What one source says of the registration, if it says anything.
abbrev pub opinion : Js → Option Bool
opinion (bool b) = some b
opinion _ = none

abbrev pub status_opinion : Js → Option Bool
status_opinion comp = if status_says_open comp then some true else none

abbrev pub opinions : Js → List (Option Bool)
opinions comp =
    opinion (reg_open_eff comp)
    ∷ opinion (reg_manual comp)
    ∷ opinion (get comp "can_register")
    ∷ status_opinion comp
    ∷ []

abbrev pub first_opinion : List (Option Bool) → Bool → Bool
first_opinion [] d = d
first_opinion (none ∷ os) d = first_opinion os d
first_opinion (some b ∷ os) d = b

-- The registration is open as the first source says that says anything, of the effective flag, the
-- manual flag, the flag of the player and the status, in this order; if none does, as the window
-- of dates says.
pub registration_open_base-first_opinion :
    (clock : Clock) (comp : Js)
    → registration_open_base clock comp ≡ first_opinion (opinions comp) (in_reg_window clock comp)
unfolding registration_open_base
registration_open_base-first_opinion clock comp = ground arith

-- Where both dates are known the window is open exactly from the first day to the last, whatever
-- the flag says.
pub in_reg_window_iff :
    (clock : Clock) (comp : Js) (s e : ℕ)
    → to_date_safe clock (get comp "registration_start") ≡ some s
    → to_date_safe clock (get comp "registration_end") ≡ some e
    → (in_reg_window clock comp ≡ true) ↔ ((s ≤ clock.today) × (clock.today ≤ e))
unfolding in_reg_window
in_reg_window_iff clock comp s e h k = rw (h, k) (ground arith)

reason_blank :
    (x y z : String) (closed opened inside : Bool)
    → x ≢ ""
    → y ≢ ""
    → z ≢ ""
    → ((if closed then x else if opened then "" else if inside then y else z) ≡ "")
      ↔ ((opened ≡ true) × (closed ≡ false))
reason_blank x y z true opened inside p q r = ((λ e. absurd (p e)), (λ h. cc))
reason_blank x y z false true inside p q r = ((λ e. (refl, refl)), (λ h. refl))
reason_blank x y z false false true p q r = ((λ e. absurd (q e)), (λ h. cc))
reason_blank x y z false false false p q r = ((λ e. absurd (r e)), (λ h. cc))

-- The coach's button has no reason to be disabled exactly when it is enabled and the admin has not
-- closed the registration by hand: so a registration that is open by the effective flag and closed
-- by hand has an enabled button with a reason.
pub coach_disable_reason-blank_iff :
    (clock : Clock) (comp : Js)
    → (coach_disable_reason clock comp ≡ "")
      ↔ ((can_click_coach_register clock comp ≡ true) × (is_no (reg_manual comp) ≡ false))
unfolding coach_disable_reason can_click_coach_register
coach_disable_reason-blank_iff clock comp =
    reason_blank _ _ _ (is_no (reg_manual comp)) (registration_open_base clock comp)
      (in_reg_window clock comp) (λ e. cc) (λ e. cc) (λ e. cc)
