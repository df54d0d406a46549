-- ===== src/Register/Person/Laws.antt =====
-- What the first step of a player and of a coach accepts.
use tkd_chb.Base.{
  ◌≡◌, ◌↔◌, refl, ap, String, Bool, true, false, not, ◌&&◌, ◌||◌, Option, none, some, every, eqb,
  if◌then◌else◌, arith,
}
use tkd_chb.Base.Text.{length_text}
use tkd_chb.Register.{Entry, Form, field_of, is_given, text_in, is_persian, is_numeric}
use tkd_chb.Register.Laws.{Reads}
use tkd_chb.Register.Person.{
  Calendar, AgeRule, calculate_age, person_fields, name_fields, person_error, PersonStep,
  after_error, handle_submit_person,
}

-- What a first step asks of its data: all six fields are filled, the names are Persian, the national
-- code has ten digits, and the rule has nothing against the age.
pub record IsPerson (cal : Calendar) (rule : AgeRule) (at : String → Entry) : Type 0 where
  pub filled : every (λ k. is_given (at k)) person_fields ≡ true
  pub names : every (λ k. is_persian (text_in (at k))) name_fields ≡ true
  pub code_digits : is_numeric (text_in (at "national_code")) ≡ true
  pub code_length : length_text (text_in (at "national_code")) ≡ 10
  pub age : rule (text_in (at "gender")) (calculate_age cal (text_in (at "birth_date"))) ≡ none

abbrev pub is_none {ℓ} : {A : Type ℓ} → Option A → Bool
is_none none = true
is_none (some x) = false

is_none_iff {ℓ} : {A : Type ℓ} (x : Option A) → is_none x ≡ true → x ≡ none
is_none_iff none h = refl
is_none_iff (some x) h = cc

after_error-passed : (e : Option String) (p : PersonStep) → (after_error e p).1 ≡ is_none e
after_error-passed none p = refl
after_error-passed (some e) p = refl

-- Four tests one after the other, each with its error.
gates :
    (a t n c l : Bool) (e1 e2 e3 e4 : String) (r : Option String)
    → is_none (
        if not a
        then some e1
        else if t
        then some e2
        else if not n
        then some e3
        else if not c || not l
        then some e4
        else r)
      ≡ (a && not t && n && c && l && is_none r)
gates false t n c l e1 e2 e3 e4 r = refl
gates true true n c l e1 e2 e3 e4 r = refl
gates true false false c l e1 e2 e3 e4 r = refl
gates true false true false l e1 e2 e3 e4 r = refl
gates true false true true false e1 e2 e3 e4 r = refl
gates true false true true true e1 e2 e3 e4 r = refl

module _ (cal : Calendar) (rule : AgeRule) where
  abbrev rest : (String → Entry) → Option String
  rest at = rule (text_in (at "gender")) (calculate_age cal (text_in (at "birth_date")))

  person_error-none :
      (taken : Bool) (at : String → Entry)
      → is_none (person_error cal rule taken at) ≡ (
          every (λ k. is_given (at k)) person_fields
          && not taken
          && every (λ k. is_persian (text_in (at k))) name_fields
          && is_numeric (text_in (at "national_code"))
          && eqb (length_text (text_in (at "national_code"))) 10
          && is_none (rest at))
  unfolding person_error
  person_error-none taken at =
      gates (every (λ k. is_given (at k)) person_fields) taken
        (every (λ k. is_persian (text_in (at k))) name_fields)
        (is_numeric (text_in (at "national_code")))
        (eqb (length_text (text_in (at "national_code"))) 10) _ _ _ _ (rest at)

  pub person_error-IsPerson :
      (taken : Bool) (at : String → Entry)
      → is_none (person_error cal rule taken at) ≡ true
      → IsPerson cal rule at
  person_error-IsPerson taken at h =
      let known = rw (person_error-none taken at) at h in
      record {
        filled = ground arith;
        names = ground arith;
        code_digits = ground arith;
        code_length = ground arith;
        age = is_none_iff (rest at) (ground arith);
      }

  person_error-free :
      (taken : Bool) (at : String → Entry)
      → is_none (person_error cal rule taken at) ≡ true
      → taken ≡ false
  person_error-free taken at h = let known = rw (person_error-none taken at) at h in ground arith

  pub person_error-Reads :
      (taken : Bool) → Reads (λ at. is_none (person_error cal rule taken at)) person_fields
  unfolding person_error
  person_error-Reads taken at at' (a, (b, (c, (d, (e, (f, _)))))) = rw (a, b, c, d, e, f) refl

  -- The first step goes on exactly where it has not marked the national code as taken at the moment,
  -- and the data is that of a person of the right age.
  pub handle_submit_person_iff :
      (d : Form) (p : PersonStep)
      → (handle_submit_person cal rule d p).1 ≡ true
        ↔ (p.national_code_exists ≡ false) × IsPerson cal rule (field_of d)
  unfolding handle_submit_person
  handle_submit_person_iff d p = (to, from)
    where
      passed :
          (handle_submit_person cal rule d p).1
          ≡ is_none (person_error cal rule p.national_code_exists (field_of d))
      passed = after_error-passed (person_error cal rule p.national_code_exists (field_of d)) p

      to :
          (handle_submit_person cal rule d p).1 ≡ true
          → (p.national_code_exists ≡ false) × IsPerson cal rule (field_of d)
      to h =
          let found = rw passed at h in
          (
            person_error-free p.national_code_exists (field_of d) found,
            person_error-IsPerson p.national_code_exists (field_of d) found,
          )

      from :
          (p.national_code_exists ≡ false) × IsPerson cal rule (field_of d)
          → (handle_submit_person cal rule d p).1 ≡ true
      from (free, person) = rw passed (
          rw (person_error-none p.national_code_exists (field_of d)) (
            ground (
              arith,
              person.filled,
              person.names,
              person.code_digits,
              person.code_length,
              ap is_none person.age,
            )))
