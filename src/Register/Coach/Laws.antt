-- ===== src/Register/Coach/Laws.antt =====
-- The form of a coach is complete when it is sent, and names at most three clubs.
use tkd_chb.Base.{
  ◌≡◌, refl, ◌+◌, ◌≤◌, String, Bool, true, false, not, ◌&&◌, ◌||◌, List, [], ◌∷◌, ◌++◌, every,
  length, ltb, arith, Bool-cases, inl, inr,
}
use tkd_chb.Base.Js.{Js, truthy, get}
use tkd_chb.Students.{no_errors}
use tkd_chb.Details.Form.{Errors}
use tkd_chb.Register.{Entry, Form, field_of, is_given, text_in, is_slashed_number}
use tkd_chb.Register.Laws.{Reads}
use tkd_chb.Register.Wizard.{Steps, InOrder, Reaches, Reaches-sent}
use tkd_chb.Register.Person.{Calendar, coach_age}
use tkd_chb.Register.Person.Laws.{IsPerson, person_error-IsPerson}
use tkd_chb.Register.Place.Laws.{IsPlace, place_found-IsPlace}
use tkd_chb.Register.Player.Laws.{person_step, place_step}
use tkd_chb.Register.Coach.{
  is_other, selected_clubs, coach_errors, is_role, referee_types, type_errors, types_or_error,
  confirm_errors, grade_errors, clubs_checked, without_number, has_number,
}

-- What the third step of a coach asks; another coach than those of the list has a name.
pub record IsTrained (at : String → Entry) : Type 0 where
  pub filled :
      every (λ k. is_given (at k)) ("role" ∷ "belt_grade" ∷ "belt_certificate_date" ∷ []) ≡ true
  pub clubs : 1 ≤ length (selected_clubs at)
  pub coach : (is_given (at "coach") || is_other (at "coach")) ≡ true
  pub name : (not (is_other (at "coach")) || is_given (at "customCoachName")) ≡ true
  pub number : is_slashed_number (text_in (at "belt_certificate_number")) ≡ true

coach_errors-IsTrained : (at : String → Entry) → no_errors (coach_errors at) ≡ true → IsTrained at
unfolding coach_errors
coach_errors-IsTrained at h = record {
  filled = ground arith;
  clubs = ground arith;
  coach = ground arith;
  name = ground arith;
  number = ground arith;
}

abbrev graded : List (String × Js) → Bool
graded es = every (λ e. truthy (get e.1 "gradeNational")) es

abbrev is_empty_list {ℓ} : {A : Type ℓ} → List A → Bool
is_empty_list [] = true
is_empty_list (_ ∷ _) = false

type_errors-graded :
    (es : List (String × Js)) (rest : Errors)
    → no_errors (type_errors es rest) ≡ (graded es && no_errors rest)
unfolding type_errors
type_errors-graded [] rest = refl
type_errors-graded ((k, info) ∷ es) rest = ground (arith, type_errors-graded es rest)

types_or_error-graded :
    (es : List (String × Js)) (rest : Errors)
    → no_errors (types_or_error es rest) ≡ (not (is_empty_list es) && graded es && no_errors rest)
types_or_error-graded [] rest = refl
types_or_error-graded (e ∷ es) rest = type_errors-graded (e ∷ es) rest

-- What the last step of a coach asks: a coach has a national grade, a referee has some type of
-- refereeing and a national grade for each, and the data are confirmed.
pub record IsGraded (at : String → Entry) : Type 0 where
  pub coach : (not (is_role "coach" (at "role")) || is_given (at "coachGradeNational")) ≡ true
  pub referee :
      (not (is_role "referee" (at "role"))
        || not (is_empty_list (referee_types at)) && graded (referee_types at))
      ≡ true
  pub confirmed : is_given (at "confirm_info") ≡ true

grade_errors-IsGraded : (at : String → Entry) → no_errors (grade_errors at) ≡ true → IsGraded at
unfolding grade_errors
grade_errors-IsGraded at h =
    let known = types_or_error-graded (referee_types at) (confirm_errors at) in
    record {
      coach = ground (arith, known);
      referee = ground (arith, known);
      confirmed = ground (arith, known);
    }

abbrev pub coach_fields : List String
coach_fields =
    "role" ∷ "is_coach" ∷ "is_referee" ∷ "tkd_board" ∷ "selectedClubs" ∷ "coach" ∷ "coachFullName"
    ∷ "customCoachName" ∷ "belt_grade" ∷ "belt_certificate_number" ∷ "belt_certificate_date" ∷ []

abbrev pub training_reads : List String
training_reads =
    "role" ∷ "selectedClubs" ∷ "coach" ∷ "customCoachName" ∷ "belt_grade"
    ∷ "belt_certificate_number" ∷ "belt_certificate_date" ∷ []

abbrev pub grade_reads : List String
grade_reads = "role" ∷ "coachGradeNational" ∷ "refereeTypes" ∷ "confirm_info" ∷ []

pub coach_errors-Reads : Reads (λ at. no_errors (coach_errors at)) training_reads
unfolding coach_errors
coach_errors-Reads at at' (a, (b, (c, (d, (e, (f, (g, _))))))) = rw (a, b, c, d, e, f, g) refl

pub grade_errors-Reads : Reads (λ at. no_errors (grade_errors at)) grade_reads
unfolding grade_errors
grade_errors-Reads at at' (a, (b, (c, (d, _)))) = rw (a, b, c, d) refl

abbrev pub coach_steps : Calendar → Steps
coach_steps cal =
    person_step cal coach_age
    ∷ place_step
    ∷ record {
      fields = coach_fields;
      reads = training_reads;
      passes = λ at. no_errors (coach_errors at);
      only = coach_errors-Reads;
    }
    ∷ record {
      fields = "coachGradeNational" ∷ "coachGradeIntl" ∷ "refereeTypes" ∷ "confirm_info" ∷ [];
      reads = grade_reads;
      passes = λ at. no_errors (grade_errors at);
      only = grade_errors-Reads;
    }
    ∷ []

coach_steps-InOrder : (cal : Calendar) → InOrder (coach_steps cal)
coach_steps-InOrder cal = ((refl, (refl, (refl, tt))), ((refl, (refl, tt)), ((refl, tt), (tt, tt))))

-- Whatever a person enters and however often they go back, the form of a coach that is sent has a
-- person of at least the age of the rule, a place, a belt with a club and a coach, and the grades that
-- the role asks for.
pub Reaches-IsCoach :
    (cal : Calendar) {start : Form} {seen : Steps} {d : Form}
    → Reaches (coach_steps cal) start seen [] d
    → IsPerson cal coach_age (field_of d)
      × IsPlace (field_of d)
      × IsTrained (field_of d)
      × IsGraded (field_of d)
Reaches-IsCoach cal {d = d} run =
    let (person, (place, (training, (grades, _)))) = Reaches-sent (coach_steps-InOrder cal) run in
    (
      person_error-IsPerson cal coach_age false (field_of d) person,
      place_found-IsPlace (field_of d) place,
      coach_errors-IsTrained (field_of d) training,
      grade_errors-IsGraded (field_of d) grades,
    )

length-append : (vs : List Js) (v : Js) → length (vs ++ v ∷ []) ≡ length vs + 1
length-append [] v = refl
length-append (w ∷ vs) v = omega (arith, length-append vs v)

length-without_number : (v : Js) (vs : List Js) → length (without_number v vs) ≤ length vs
unfolding without_number
length-without_number v [] = omega arith
length-without_number v (w ∷ vs) = ground (arith, length-without_number v vs)

-- Checking and clearing clubs, with ids of any kind, never makes a choice of more than three clubs.
pub clubs_checked-few :
    (club_id : Js) (checked : Bool) (clubs : List Js)
    → length clubs ≤ 3
    → length (clubs_checked club_id checked clubs) ≤ 3
unfolding clubs_checked
clubs_checked-few club_id false clubs few = omega (arith, few, length-without_number club_id clubs)
clubs_checked-few club_id true clubs few =
    elim (Bool-cases (not (has_number club_id clubs) && ltb (length clubs) 3)) [
      | inl new ↦ rw new (rw (length-append clubs club_id) (ground arith))
      | inr old ↦ rw old few
    ]
