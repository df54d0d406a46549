-- ===== src/Register/Player/Laws.antt =====
-- The form of a player is complete when it is sent.
use tkd_chb.Base.{◌≡◌, refl, String, true, false, List, [], ◌∷◌, every, arith}
use tkd_chb.Students.{no_errors}
use tkd_chb.Register.{Entry, Form, field_of, is_given, text_in, is_slashed_number}
use tkd_chb.Register.Laws.{Reads}
use tkd_chb.Register.Wizard.{FormStep, Steps, InOrder, Reaches, Reaches-sent}
use tkd_chb.Register.Person.{Calendar, AgeRule, player_age, person_fields, person_error}
use tkd_chb.Register.Person.Laws.{IsPerson, is_none, person_error-IsPerson, person_error-Reads}
use tkd_chb.Register.Place.{place_found}
use tkd_chb.Register.Place.Laws.{
  IsPlace, clean, place_fields, place_found-IsPlace, place_found-Reads,
}
use tkd_chb.Register.Player.{player_errors}

abbrev pub player_fields : List String
player_fields =
    "tkd_board" ∷ "club" ∷ "coach" ∷ "belt_grade" ∷ "belt_certificate_number"
    ∷ "belt_certificate_date" ∷ "confirm_info" ∷ []

-- What the last step of a player asks: all its fields, and a number of digits and slashes.
pub record IsPlayer (at : String → Entry) : Type 0 where
  pub filled :
      every
        (λ k. is_given (at k))
        ("tkd_board" ∷ "club" ∷ "coach" ∷ "belt_grade" ∷ "belt_certificate_date" ∷ "confirm_info"
          ∷ [])
      ≡ true
  pub number : is_slashed_number (text_in (at "belt_certificate_number")) ≡ true

player_errors-IsPlayer : (at : String → Entry) → no_errors (player_errors at) ≡ true → IsPlayer at
unfolding player_errors
player_errors-IsPlayer at h = record { filled = ground arith; number = ground arith }

pub player_errors-Reads : Reads (λ at. no_errors (player_errors at)) player_fields
unfolding player_errors
player_errors-Reads at at' (a, (b, (c, (d, (e, (f, (g, _))))))) = rw (a, b, c, d, e, f, g) refl

-- The first two steps, of a player and of a coach.
abbrev pub person_step : Calendar → AgeRule → FormStep
person_step cal rule = record {
  fields = person_fields;
  reads = person_fields;
  passes = λ at. is_none (person_error cal rule false at);
  only = person_error-Reads cal rule false;
}

abbrev pub place_step : FormStep
place_step = record {
  fields = place_fields;
  reads = place_fields;
  passes = λ at. clean (place_found at);
  only = place_found-Reads;
}

abbrev pub belt_step : FormStep
belt_step = record {
  fields = player_fields;
  reads = player_fields;
  passes = λ at. no_errors (player_errors at);
  only = player_errors-Reads;
}

abbrev pub player_steps : Calendar → Steps
player_steps cal = person_step cal player_age ∷ place_step ∷ belt_step ∷ []

player_steps-InOrder : (cal : Calendar) → InOrder (player_steps cal)
player_steps-InOrder cal = ((refl, (refl, tt)), ((refl, tt), (tt, tt)))

-- Whatever a person enters and however often they go back, the form of a player that is sent has a
-- person of at least the age of the rule, a place and a belt with all that the three steps ask.
pub Reaches-IsPlayer :
    (cal : Calendar) {start : Form} {seen : Steps} {d : Form}
    → Reaches (player_steps cal) start seen [] d
    → IsPerson cal player_age (field_of d) × IsPlace (field_of d) × IsPlayer (field_of d)
Reaches-IsPlayer cal {d = d} run =
    let (person, (place, (player, _))) = Reaches-sent (player_steps-InOrder cal) run in
    (
      person_error-IsPerson cal player_age false (field_of d) person,
      place_found-IsPlace (field_of d) place,
      player_errors-IsPlayer (field_of d) player,
    )
