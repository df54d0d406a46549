-- ===== src/Register/Club/Laws.antt =====
-- The form of a club is complete when it is sent.
use tkd_chb.Base.{◌≡◌, refl, ◌≤◌, String, true, not, ◌&&◌, ◌||◌, List, [], ◌∷◌, every, leb, arith}
use tkd_chb.Base.Text.{length_text}
use tkd_chb.Students.{no_errors}
use tkd_chb.Register.{Entry, Form, field_of, is_given, text_in, is_numeric, is_slashed_number}
use tkd_chb.Register.Laws.{Reads}
use tkd_chb.Register.Wizard.{Steps, InOrder, Reaches, Reaches-sent}
use tkd_chb.Register.Place.{Found, nothing_found, check_required}
use tkd_chb.Register.Place.Laws.{snoc-is_clean, clean, check_required-clean}
use tkd_chb.Register.Club.{
  founder_errors, seat_messages, is_club_phone, phone_message, short_address, check_club_phone,
  check_club_address, seat_found, license_messages, number_message, type_message, size_message,
  confirm_message, has_type, is_small, check_number, check_type, check_size, check_confirmed,
  license_found,
}

-- What the first step of a club asks.
pub record IsFounded (at : String → Entry) : Type 0 where
  pub filled :
      every
        (λ k. is_given (at k))
        ("club_name" ∷ "founder_name" ∷ "club_type" ∷ "activity_description" ∷ [])
      ≡ true
  pub code_digits : is_numeric (text_in (at "founder_national_code")) ≡ true
  pub code_length : length_text (text_in (at "founder_national_code")) ≡ 10
  pub description : 10 ≤ length_text (text_in (at "activity_description"))

founder_errors-IsFounded :
    (at : String → Entry) → no_errors (founder_errors at) ≡ true → IsFounded at
unfolding founder_errors
founder_errors-IsFounded at h = record {
  filled = ground arith;
  code_digits = ground arith;
  code_length = ground arith;
  description = ground arith;
}

-- What the second step of a club asks.
pub record IsSeated (at : String → Entry) : Type 0 where
  pub filled : every (λ e. is_given (at e.0)) seat_messages ≡ true
  pub phone : is_club_phone (text_in (at "phone")) ≡ true
  pub address : 10 ≤ length_text (text_in (at "address"))

check_club_phone-clean :
    (v : Entry) (f : Found)
    → clean (check_club_phone v f) ≡ (clean f && (not (is_given v) || is_club_phone (text_in v)))
unfolding check_club_phone
check_club_phone-clean v f = ground (arith, snoc-is_clean f.custom_errors phone_message)

check_club_address-clean :
    (v : Entry) (f : Found)
    → clean (check_club_address v f)
      ≡ (clean f && (not (is_given v) || leb 10 (length_text (text_in v))))
unfolding check_club_address
check_club_address-clean v f = ground (arith, snoc-is_clean f.custom_errors short_address)

seat_found-clean :
    (at : String → Entry)
    → clean (seat_found at) ≡ (
        (every (λ e. is_given (at e.0)) seat_messages
          && (not (is_given (at "phone")) || is_club_phone (text_in (at "phone"))))
        && (not (is_given (at "address")) || leb 10 (length_text (text_in (at "address")))))
unfolding seat_found
seat_found-clean at =
    let first = check_required at seat_messages nothing_found in
    rw (check_club_address-clean (at "address") (check_club_phone (at "phone") first)) (
      rw (check_club_phone-clean (at "phone") first)
        (rw (check_required-clean at seat_messages nothing_found) refl))

seat_found-IsSeated : (at : String → Entry) → clean (seat_found at) ≡ true → IsSeated at
seat_found-IsSeated at h =
    let known = rw (seat_found-clean at) at h in
    record { filled = ground arith; phone = ground arith; address = ground arith }

-- What the last step of a club asks: a number, an id of the federation, a picture of a right type of
-- at most 200 KB, and that the data are confirmed.
pub record IsLicensed (at : String → Entry) : Type 0 where
  pub filled : every (λ e. is_given (at e.0)) license_messages ≡ true
  pub number : is_slashed_number (text_in (at "license_number")) ≡ true
  pub type : has_type (at "license_image") ≡ true
  pub size : is_small (at "license_image") ≡ true
  pub confirmed : is_given (at "confirm_info") ≡ true

check_number-clean :
    (v : Entry) (f : Found)
    → clean (check_number v f) ≡ (clean f && (not (is_given v) || is_slashed_number (text_in v)))
unfolding check_number
check_number-clean v f = ground (arith, snoc-is_clean f.custom_errors number_message)

check_type-clean :
    (v : Entry) (f : Found) → clean (check_type v f) ≡ (clean f && (not (is_given v) || has_type v))
unfolding check_type
check_type-clean v f = ground (arith, snoc-is_clean f.custom_errors type_message)

check_size-clean :
    (v : Entry) (f : Found) → clean (check_size v f) ≡ (clean f && (not (is_given v) || is_small v))
unfolding check_size
check_size-clean v f = ground (arith, snoc-is_clean f.custom_errors size_message)

check_confirmed-clean :
    (v : Entry) (f : Found) → clean (check_confirmed v f) ≡ (clean f && is_given v)
unfolding check_confirmed
check_confirmed-clean v f = ground (arith, snoc-is_clean f.custom_errors confirm_message)

license_found-clean :
    (at : String → Entry)
    → clean (license_found at) ≡ (
        (((every (λ e. is_given (at e.0)) license_messages
              && (not (is_given (at "license_number"))
                  || is_slashed_number (text_in (at "license_number"))))
            && (not (is_given (at "license_image")) || has_type (at "license_image")))
          && (not (is_given (at "license_image")) || is_small (at "license_image")))
        && is_given (at "confirm_info"))
unfolding license_found
license_found-clean at =
    let image = at "license_image" in
    let first = check_required at license_messages nothing_found in
    let second = check_number (at "license_number") first in
    rw (check_confirmed-clean (at "confirm_info") (check_size image (check_type image second))) (
      rw (check_size-clean image (check_type image second)) (
        rw (check_type-clean image second) (
          rw (check_number-clean (at "license_number") first)
            (rw (check_required-clean at license_messages nothing_found) refl))))

license_found-IsLicensed : (at : String → Entry) → clean (license_found at) ≡ true → IsLicensed at
license_found-IsLicensed at h =
    let known = rw (license_found-clean at) at h in
    record {
      filled = ground arith;
      number = ground arith;
      type = ground arith;
      size = ground arith;
      confirmed = ground arith;
    }

abbrev pub founder_fields : List String
founder_fields =
    "club_name" ∷ "founder_name" ∷ "founder_national_code" ∷ "club_type" ∷ "activity_description"
    ∷ []

abbrev pub seat_fields : List String
seat_fields = "province" ∷ "county" ∷ "city" ∷ "tkd_board" ∷ "phone" ∷ "address" ∷ []

abbrev pub license_fields : List String
license_fields = "license_number" ∷ "federation_id" ∷ "license_image" ∷ "confirm_info" ∷ []

pub founder_errors-Reads : Reads (λ at. no_errors (founder_errors at)) founder_fields
unfolding founder_errors
founder_errors-Reads at at' (a, (b, (c, (d, (e, _))))) = rw (a, b, c, d, e) refl

pub seat_found-Reads : Reads (λ at. clean (seat_found at)) seat_fields
unfolding seat_found check_required
seat_found-Reads at at' (a, (b, (c, (d, (e, (f, _)))))) = rw (a, b, c, d, e, f) refl

pub license_found-Reads : Reads (λ at. clean (license_found at)) license_fields
unfolding license_found check_required
license_found-Reads at at' (a, (b, (c, (d, _)))) = rw (a, b, c, d) refl

abbrev pub club_steps : Steps
club_steps =
    record {
      fields = founder_fields;
      reads = founder_fields;
      passes = λ at. no_errors (founder_errors at);
      only = founder_errors-Reads;
    }
    ∷ record {
      fields = seat_fields;
      reads = seat_fields;
      passes = λ at. clean (seat_found at);
      only = seat_found-Reads;
    }
    ∷ record {
      fields = license_fields;
      reads = license_fields;
      passes = λ at. clean (license_found at);
      only = license_found-Reads;
    }
    ∷ []

club_steps-InOrder : InOrder club_steps
club_steps-InOrder = ((refl, (refl, tt)), ((refl, tt), (tt, tt)))

-- Whatever a person enters and however often they go back, the form of a club that is sent has a
-- founder, a seat and a licence with all that the three steps ask.
pub Reaches-IsClub :
    {start : Form} {seen : Steps} {d : Form}
    → Reaches club_steps start seen [] d
    → IsFounded (field_of d) × IsSeated (field_of d) × IsLicensed (field_of d)
Reaches-IsClub {d = d} run =
    let (founded, (seated, (licensed, _))) = Reaches-sent club_steps-InOrder run in
    (
      founder_errors-IsFounded (field_of d) founded,
      seat_found-IsSeated (field_of d) seated,
      license_found-IsLicensed (field_of d) licensed,
    )
