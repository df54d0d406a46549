-- ===== src/Register/Place/Laws.antt =====
-- What the second step accepts.
use tkd_chb.Base.{
  ◌≡◌, ◌↔◌, refl, ◌≤◌, String, Bool, true, false, not, ◌&&◌, ◌||◌, List, [], ◌∷◌, ◌++◌, every, leb,
  arith,
}
use tkd_chb.Base.Text.{length_text}
use tkd_chb.Register.{Entry, Form, field_of, is_given, text_in}
use tkd_chb.Register.Laws.{Reads}
use tkd_chb.Register.Place.{
  Found, nothing_found, address_chars, address_length, picture_text, report, check_required,
  place_messages, is_address_text, check_address, is_picture, jpg_types, check_picture, place_found,
  is_clean, handle_next_place,
}

pub snoc-is_clean : (es : List String) (e : String) → is_clean (es ++ e ∷ []) ≡ false
snoc-is_clean [] e = refl
snoc-is_clean (x ∷ es) e = refl

abbrev pub clean : Found → Bool
clean f = is_clean f.custom_errors

pub check_required-clean :
    (at : String → Entry) (ks : List (String × String)) (f : Found)
    → clean (check_required at ks f) ≡ (clean f && every (λ e. is_given (at e.0)) ks)
unfolding check_required
check_required-clean at [] f = ground arith
check_required-clean at ((k, m) ∷ ks) f = ground (
  arith,
  check_required-clean at ks f,
  check_required-clean at ks (report k m f),
  snoc-is_clean f.custom_errors m,
)

abbrev address_fits : Entry → Bool
address_fits v =
    is_address_text (text_in v)
    && leb 10 (length_text (text_in v))
    && leb (length_text (text_in v)) 300

check_address-clean :
    (v : Entry) (f : Found)
    → clean (check_address v f) ≡ (clean f && (not (is_given v) || address_fits v))
unfolding check_address
check_address-clean v f = ground (
  arith,
  snoc-is_clean f.custom_errors address_chars,
  snoc-is_clean f.custom_errors address_length,
)

check_picture-clean :
    (v : Entry) (f : Found)
    → clean (check_picture v f) ≡ (clean f && (not (is_given v) || is_picture jpg_types v))
unfolding check_picture
check_picture-clean v f = ground (arith, snoc-is_clean f.custom_errors picture_text)

-- What the second step accepts: all fields are filled, the address has 10 to 300 characters, all
-- Persian, digits, blanks or one of its marks, and the picture is a JPG of at most 200 KB.
pub record IsPlace (at : String → Entry) : Type 0 where
  pub filled : every (λ e. is_given (at e.0)) place_messages ≡ true
  pub address_chars : is_address_text (text_in (at "address")) ≡ true
  pub address_length :
      (10 ≤ length_text (text_in (at "address"))) × (length_text (text_in (at "address")) ≤ 300)
  pub picture : is_picture jpg_types (at "profile_image") ≡ true

place_found-clean :
    (at : String → Entry)
    → clean (place_found at) ≡ (
        every (λ e. is_given (at e.0)) place_messages
        && (not (is_given (at "address")) || address_fits (at "address"))
        && (not (is_given (at "profile_image")) || is_picture jpg_types (at "profile_image")))
unfolding place_found
place_found-clean at =
    let first = check_required at place_messages nothing_found in
    let second = check_address (at "address") first in
    rw (check_picture-clean (at "profile_image") second) (
      rw (check_address-clean (at "address") first)
        (rw (check_required-clean at place_messages nothing_found) (ground arith)))

pub place_found-IsPlace : (at : String → Entry) → clean (place_found at) ≡ true → IsPlace at
place_found-IsPlace at h =
    let known = rw (place_found-clean at) at h in
    record {
      filled = ground arith;
      address_chars = ground arith;
      address_length = ground arith;
      picture = ground arith;
    }

IsPlace-place_found : (at : String → Entry) → IsPlace at → clean (place_found at) ≡ true
IsPlace-place_found at p =
    rw (place_found-clean at)
      (ground (arith, p.filled, p.address_chars, p.address_length, p.picture))

abbrev pub place_fields : List String
place_fields = "province" ∷ "county" ∷ "city" ∷ "address" ∷ "profile_image" ∷ []

pub place_found-Reads : Reads (λ at. clean (place_found at)) place_fields
unfolding place_found check_required
place_found-Reads at at' (a, (b, (c, (d, (e, _))))) = rw (a, b, c, d, e) refl

-- The second step goes on exactly with a form that has a place, and shows a window with messages
-- exactly where it does not go on.
pub handle_next_place_iff :
    (d : Form)
    → ((handle_next_place d).1 ≡ true ↔ IsPlace (field_of d))
      × ((handle_next_place d).0.show_error_modal ≡ not (handle_next_place d).1)
unfolding handle_next_place
handle_next_place_iff d =
    ((place_found-IsPlace (field_of d), IsPlace-place_found (field_of d)), refl)
