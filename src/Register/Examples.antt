-- ===== src/Register/Examples.antt =====
-- The registrations of one player, one coach and one club, and of a phone.
use tkd_chb.Base.{◌≡◌, ◌↔◌, refl, not, ℕ, ◌-◌, ltb, String, true, false, List, [], ◌∷◌, map, some}
use tkd_chb.Base.Int.{◌-ℤ◌}
use tkd_chb.Base.Text.{length_text, every_char, map_chars}
use tkd_chb.Base.Js.{to_text, bool, num, str, object, array}
use tkd_chb.Students.{no_errors}
use tkd_chb.Register.{
  js, file, Form, field_of, set_entry, handle_data_change, text, is_persian, is_numeric,
  is_slashed_number,
}
use tkd_chb.Register.Wizard.{Reaches, begin, changed, forward, back}
use tkd_chb.Register.Person.{
  Calendar, person_start, player_age, coach_age, person_error, calculate_age, to_english_number,
  handle_submit_person,
}
use tkd_chb.Register.Person.Laws.{IsPerson, is_none, handle_submit_person_iff}
use tkd_chb.Register.Place.{
  place_found, check_required, check_address, check_picture, is_address_text, handle_next_place,
}
use tkd_chb.Register.Place.Laws.{IsPlace, clean, handle_next_place_iff}
use tkd_chb.Register.Player.{initial_form, player_errors}
use tkd_chb.Register.Player.Laws.{IsPlayer, player_steps, Reaches-IsPlayer}
use tkd_chb.Register.Coach.{coach_errors, grade_errors, selected_types, type_errors}
use tkd_chb.Register.Coach.Laws.{IsTrained, IsGraded, coach_steps, Reaches-IsCoach}
use tkd_chb.Register.Club.{
  initial_club, founder_errors, seat_found, is_club_phone, check_club_phone, check_club_address,
  license_found, check_number, check_type, check_size, check_confirmed,
}
use tkd_chb.Register.Club.Laws.{IsFounded, IsSeated, IsLicensed, club_steps, Reaches-IsClub}
use tkd_chb.Forgot.{is_phone}
use tkd_chb.Net.{Response, World}
use tkd_chb.Base.Exec.{Result, ok}
use tkd_chb.Register.Phone.{
  at_phone, at_code, phone_sent, phone_replied, settle, initial_signup, send_phone,
  handle_code_change, is_digit_or_empty, set_at, verify_code,
}
use tkd_chb.Register.Phone.Laws.{
  IsSound, begin, types_phone, sends_phone, types_code, phone_arrives, Reaches-IsSound, Window,
  code_asked, code_changed, post_text,
}

abbrev calendar : Calendar
calendar = record {
  read_date = λ s. record { year = 1380; month = 2; day = 10 };
  today = record { year = 1404; month = 6; day = 1 };
}

abbrev a_person : Form
a_person =
    ("first_name", text "\u{639}\u{644}\u{6cc}")
    ∷ ("last_name", text "\u{6a9}\u{631}\u{6cc}\u{645}\u{6cc}")
    ∷ ("father_name", text "\u{631}\u{636}\u{627}")
    ∷ ("national_code", text "0012345678")
    ∷ ("birth_date", text "1380/02/10")
    ∷ ("gender", text "male")
    ∷ []

abbrev a_place : Form
a_place =
    ("province", text "\u{62a}\u{647}\u{631}\u{627}\u{646}")
    ∷ ("county", text "\u{62a}\u{647}\u{631}\u{627}\u{646}")
    ∷ ("city", text "\u{631}\u{6cc}")
    ∷ (
      "address",
      text
          "\u{62e}\u{6cc}\u{627}\u{628}\u{627}\u{646} \u{627}\u{635}\u{644}\u{6cc} \u{67e}\u{644}\u{627}\u{6a9} 12",
    )
    ∷ ("profile_image", file "image/jpeg" 51200)
    ∷ []

abbrev a_belt : Form
a_belt =
    ("tkd_board", text "3")
    ∷ ("club", text "5")
    ∷ ("coach", text "7")
    ∷ ("belt_grade", text "\u{633}\u{641}\u{6cc}\u{62f}")
    ∷ ("belt_certificate_number", text "12/345")
    ∷ ("belt_certificate_date", text "1403/01/20")
    ∷ ("confirm_info", js (bool true))
    ∷ []

abbrev empty_player : Form
empty_player = initial_form false "player" "09123456789"

abbrev with_person : Form
with_person = handle_data_change a_person empty_player

abbrev with_place : Form
with_place = handle_data_change a_place with_person

abbrev with_belt : Form
with_belt = handle_data_change a_belt with_place

person_passes : is_none (person_error calendar player_age false (field_of with_person)) ≡ true
unfolding initial_form handle_data_change set_entry person_error player_age is_persian is_numeric
    every_char length_text calculate_age to_english_number map_chars to_text ◌-ℤ◌
person_passes = refl

place_passes : clean (place_found (field_of with_place)) ≡ true
unfolding initial_form handle_data_change set_entry place_found check_required check_address
    check_picture is_address_text every_char length_text to_text
place_passes = refl

belt_passes : no_errors (player_errors (field_of with_belt)) ≡ true
unfolding initial_form handle_data_change set_entry player_errors is_slashed_number every_char
    to_text
belt_passes = refl

handle_submit_person_iff_example :
    (handle_submit_person calendar player_age with_person person_start).1 ≡ true
    ↔ (person_start.national_code_exists ≡ false)
      × IsPerson calendar player_age (field_of with_person)
handle_submit_person_iff_example =
    handle_submit_person_iff calendar player_age with_person person_start

handle_next_place_iff_example :
    ((handle_next_place with_place).1 ≡ true ↔ IsPlace (field_of with_place))
    × ((handle_next_place with_place).0.show_error_modal ≡ not (handle_next_place with_place).1)
handle_next_place_iff_example = handle_next_place_iff with_place

started : Reaches (player_steps calendar) empty_player [] (player_steps calendar) empty_player
started = begin

Reaches-IsPlayer_example :
    IsPerson calendar player_age (field_of with_belt)
    × IsPlace (field_of with_belt)
    × IsPlayer (field_of with_belt)
Reaches-IsPlayer_example = Reaches-IsPlayer calendar (
    forward belt_passes (
      changed a_belt (refl, (refl, (refl, (refl, (refl, (refl, (refl, tt)))))))
        (forward place_passes (
          changed a_place (refl, (refl, (refl, (refl, (refl, tt)))))
            (forward person_passes
              (changed a_person (refl, (refl, (refl, (refl, (refl, (refl, tt)))))) started))))))

abbrev a_training : Form
a_training =
    ("role", text "both")
    ∷ ("selectedClubs", js (array (num 4 ∷ [])))
    ∷ ("coach", text "other")
    ∷ ("customCoachName", text "\u{62d}\u{633}\u{646}")
    ∷ ("belt_grade", text "\u{645}\u{634}\u{6a9}\u{6cc} \u{62f}\u{627}\u{646} 2")
    ∷ ("belt_certificate_number", text "77/1")
    ∷ ("belt_certificate_date", text "1399/01/20")
    ∷ []

abbrev a_grade : Form
a_grade =
    ("coachGradeNational", text "\u{62f}\u{631}\u{62c}\u{647} \u{62f}\u{648}")
    ∷ (
      "refereeTypes",
      js (
          object (
            (
              "poomseh",
              object (
                  ("selected", bool true)
                  ∷ ("gradeNational", str "\u{645}\u{645}\u{62a}\u{627}\u{632}")
                  ∷ []),
            )
            ∷ [])),
    )
    ∷ ("confirm_info", js (bool true))
    ∷ []

abbrev with_training : Form
with_training = handle_data_change a_training with_place

abbrev with_grade : Form
with_grade = handle_data_change a_grade with_training

coach_passes : is_none (person_error calendar coach_age false (field_of with_person)) ≡ true
unfolding initial_form handle_data_change set_entry person_error coach_age is_persian is_numeric
    every_char length_text calculate_age to_english_number map_chars to_text ◌-ℤ◌
coach_passes = refl

training_passes : no_errors (coach_errors (field_of with_training)) ≡ true
unfolding initial_form handle_data_change set_entry coach_errors is_slashed_number every_char
    to_text
training_passes = refl

grade_passes : no_errors (grade_errors (field_of with_grade)) ≡ true
unfolding initial_form handle_data_change set_entry grade_errors selected_types type_errors to_text
grade_passes = refl

coach_started : Reaches (coach_steps calendar) empty_player [] (coach_steps calendar) empty_player
coach_started = begin

-- A coach who goes back from the third step and on again.
Reaches-IsCoach_example :
    IsPerson calendar coach_age (field_of with_grade)
    × IsPlace (field_of with_grade)
    × IsTrained (field_of with_grade)
    × IsGraded (field_of with_grade)
Reaches-IsCoach_example = Reaches-IsCoach calendar (
    forward grade_passes (
      changed a_grade (refl, (refl, (refl, tt)))
        (forward training_passes (
          changed a_training (refl, (refl, (refl, (refl, (refl, (refl, (refl, tt)))))))
            (forward place_passes (
              back (
                forward place_passes (
                  changed a_place (refl, (refl, (refl, (refl, (refl, tt)))))
                    (forward coach_passes (
                      changed a_person (refl, (refl, (refl, (refl, (refl, (refl, tt))))))
                        coach_started))))))))))

abbrev a_founder : Form
a_founder =
    ("club_name", text "\u{67e}\u{627}\u{631}\u{633}")
    ∷ ("founder_name", text "\u{639}\u{644}\u{6cc}")
    ∷ ("founder_national_code", text "0012345678")
    ∷ ("club_type", text "private")
    ∷ (
      "activity_description",
      text "\u{622}\u{645}\u{648}\u{632}\u{634} \u{62a}\u{6a9}\u{648}\u{627}\u{646}\u{62f}\u{648}",
    )
    ∷ []

abbrev a_seat : Form
a_seat =
    ("province", text "\u{62a}\u{647}\u{631}\u{627}\u{646}")
    ∷ ("county", text "\u{62a}\u{647}\u{631}\u{627}\u{646}")
    ∷ ("city", text "\u{631}\u{6cc}")
    ∷ ("tkd_board", js (num 3))
    ∷ ("phone", text "03812345678")
    ∷ ("address", text "\u{62e}\u{6cc}\u{627}\u{628}\u{627}\u{646} \u{627}\u{635}\u{644}\u{6cc}")
    ∷ []

abbrev a_license : Form
a_license =
    ("license_number", text "12/9")
    ∷ ("federation_id", text "44")
    ∷ ("license_image", file "image/png" 1024)
    ∷ ("confirm_info", js (bool true))
    ∷ []

abbrev with_founder : Form
with_founder = handle_data_change a_founder (initial_club "09123456789")

abbrev with_seat : Form
with_seat = handle_data_change a_seat with_founder

abbrev with_license : Form
with_license = handle_data_change a_license with_seat

founder_passes : no_errors (founder_errors (field_of with_founder)) ≡ true
unfolding initial_club handle_data_change set_entry founder_errors is_numeric every_char length_text
    to_text
founder_passes = refl

seat_passes : clean (seat_found (field_of with_seat)) ≡ true
unfolding initial_club handle_data_change set_entry seat_found check_required check_club_phone
    check_club_address is_club_phone every_char length_text to_text
seat_passes = refl

license_passes : clean (license_found (field_of with_license)) ≡ true
unfolding initial_club handle_data_change set_entry license_found check_required check_number
    check_type check_size check_confirmed is_slashed_number every_char to_text
license_passes = refl

club_started :
    Reaches club_steps (initial_club "09123456789") [] club_steps (initial_club "09123456789")
club_started = begin

Reaches-IsClub_example :
    IsFounded (field_of with_license)
    × IsSeated (field_of with_license)
    × IsLicensed (field_of with_license)
Reaches-IsClub_example = Reaches-IsClub (
    forward license_passes (
      changed a_license (refl, (refl, (refl, (refl, tt))))
        (forward seat_passes (
          changed a_seat (refl, (refl, (refl, (refl, (refl, (refl, tt))))))
            (forward founder_passes
              (changed a_founder (refl, (refl, (refl, (refl, (refl, tt))))) club_started))))))

-- A reply that sends a code, and takes any code.
abbrev agreed : Result Response
agreed = ok (record {
  status = 200;
  status_text = "OK";
  json = some (object (("message", str "OK") ∷ []));
  text = "";
})

abbrev fresh : World
fresh = record { storage = []; sent = [] }

abbrev opened : Window
opened = record { signup = initial_signup; sending = 0; checking = []; world = fresh }

opened_step : opened.signup.step ≡ at_phone
unfolding initial_signup
opened_step = refl

abbrev phoned : String → Window → Window
phoned t w = record w { signup = record w.signup { phone = t } }

abbrev replied : Window → Window
replied w = record w { signup = phone_sent agreed w.signup; sending = w.sending - 1 }

abbrev called : Window
called =
    code_asked (send_phone "coach" (phoned "09123456789" opened).signup)
      (phoned "09123456789" opened)

called_sending : ltb 0 called.sending ≡ true
unfolding send_phone is_phone length_text every_char initial_signup code_asked
called_sending = refl

called_step : (replied called).signup.step ≡ at_code
unfolding send_phone is_phone length_text every_char initial_signup phone_sent phone_replied settle
    code_asked
called_step = refl

Reaches-IsSound_example :
    IsSound false fresh
      (code_changed (handle_code_change "7" 0 (replied called).signup) (replied called))
Reaches-IsSound_example = Reaches-IsSound false "coach" fresh (
    types_code "7" 0 called_step (
      phone_arrives agreed called_sending
        (sends_phone (types_phone "09123456789" opened_step refl begin))))

abbrev all_digits : List (String × ℕ) → Window → Window
all_digits [] w = w
all_digits ((d, n) ∷ ds) w = all_digits ds (code_changed (handle_code_change d n w.signup) w)

abbrev hasty_end : Window
hasty_end =
    all_digits (("1", 0) ∷ ("2", 1) ∷ ("3", 2) ∷ ("4", 3) ∷ []) (replied (phoned "7" called))

-- A phone that is changed before the reply is sent as it stands.
changed_phone : map (λ r. post_text r "phone") hasty_end.world.sent ≡ "09123456789" ∷ "7" ∷ []
unfolding send_phone is_phone length_text every_char initial_signup phone_sent phone_replied settle
    code_asked code_changed handle_code_change is_digit_or_empty set_at verify_code
changed_phone = refl
