-- ===== src/Details/Examples.antt =====
-- The theorems on the page of a competition at concrete data.
use tkd_chb.Base.{
  ◌≡◌, ◌≢◌, ◌↔◌, refl, ℕ, String, ◌==◌, true, false, ◌&&◌, Option, some, none, List, [], ◌∷◌, any,
  if◌then◌else◌, ◌-◌, ◌+◌, ◌*◌, ◌/◌, ◌%◌,
}
use tkd_chb.Base.Text.{to_lower_case, trim, map_chars, filter_chars, includes}
use tkd_chb.Base.Digits.{sanitize_weight, is_weight}
use tkd_chb.Base.Int.{pos_part}
use tkd_chb.Base.Js.{Js, null, num, str, bool, obj, field, end, get, object, to_text, truthy}
use tkd_chb.Net.{Server, World, answered}
use tkd_chb.Details.Eligibility.{
  eligibility, competition_gender, norm_gender, gender_map, gender_text, persian_letter,
}
use tkd_chb.Details.Eligibility.Laws.{eligibility-after_prefill}
use tkd_chb.Details.Window.{Clock}
use tkd_chb.Details.Locked.{
  is_filled, merged_keys, merge_locked_profiles, normalize_locked_profile, locked_entries,
  pick_first, pick_from, find_national_id_deep, is_nat_key, clean_key,
}
use tkd_chb.Details.Locked.Laws.{get-merge_locked_profiles}
use tkd_chb.Details.Form.{Picker, Form, validate_ky, validate_po}
use tkd_chb.Details.Form.Laws.{IsDated, IsSigned, validate_ky_iff, validate_po_iff}
use tkd_chb.Details.Submit.{View, submit_register}
use tkd_chb.Details.Submit.Laws.{Settled, submit_register-Settled}

abbrev clock : Clock
clock = record { today = 20250110; date_of = λ y m d. 10000 * y + 100 * m + d }

abbrev girls : Js
girls = object (
    ("gender", str "female")
    ∷ ("registration_start", str "2025-01-01")
    ∷ ("registration_end", str "2025-01-31")
    ∷ ("registration_manual", bool false)
    ∷ [])

abbrev old_profile : List (String × Js)
old_profile = ("belt", str "red") ∷ ("club", str "north") ∷ []

abbrev new_profile : List (String × Js)
new_profile = ("belt", str "black") ∷ ("club", str " ") ∷ []

get-merge_locked_profiles_example :
    get (merge_locked_profiles (object old_profile) (object new_profile)) "belt" ≡ (
      if any (λ j. j == "belt") merged_keys && is_filled (get (object new_profile) "belt")
      then str (to_text (get (object new_profile) "belt"))
      else get (object old_profile) "belt")
get-merge_locked_profiles_example = get-merge_locked_profiles old_profile new_profile "belt"

eligibility-after_prefill_example :
    eligibility girls (normalize_locked_profile (object old_profile)) ≡ some false
unfolding competition_gender norm_gender gender_map gender_text persian_letter
    normalize_locked_profile locked_entries pick_first pick_from find_national_id_deep to_lower_case
    trim map_chars filter_chars to_text is_nat_key includes clean_key
eligibility-after_prefill_example =
    eligibility-after_prefill girls (object old_profile) (λ r. refl) refl refl

abbrev picker : Picker
picker = record {
  to_date = λ t. if t == "" then none else some 20250101;
  to_iso = λ t. "2025-01-01";
  get_date = λ d. d % 100;
  set_date = λ d n. d - d % 100 + pos_part n;
  get_full_year = λ d. d / 10000;
  set_full_year = λ d n. pos_part n * 10000 + d % 10000;
}

abbrev filled : Form
filled = record {
  opened = true;
  loading = false;
  errors = [];
  can_register = true;
  need_coach_code = true;
  locked = null;
  coach_code = str "123";
  weight = str "54.5";
  poomsae_type = str "standard";
  insurance_number = num 7;
  insurance_issue_date = str "1403/10/12";
  confirmed = true;
}

validate_ky_iff_example : (validate_ky picker (some 20250120) filled ≡ []) ↔ (
    (is_weight (sanitize_weight (to_text filled.weight)) ≡ true)
    × IsDated picker (some 20250120) filled.insurance_issue_date
    × IsSigned filled)
validate_ky_iff_example = validate_ky_iff picker (some 20250120) filled

validate_po_iff_example : (validate_po picker (some 20250120) filled ≡ []) ↔ (
    (truthy filled.poomsae_type ≡ true)
    × IsDated picker (some 20250120) filled.insurance_issue_date
    × IsSigned filled)
validate_po_iff_example = validate_po_iff picker (some 20250120) filled

abbrev view : View
view = record {
  reg = filled;
  reg_p = filled;
  card = record {
    loading = false;
    checked = true;
    enrollment_id = null;
    status = null;
    can_show = false;
  };
  code_modal = record { opened = false; loading = true; code = null; approved = false; error = "" };
  went = [];
  alerts = [];
}

abbrev unsigned : View
unsigned = record view { reg = record filled { confirmed = false } }

abbrev accepting : Server
accepting sent req = answered (record {
  status = 201;
  status_text = "Created";
  json = some (obj (field "enrollment_id" (num 5) end));
  text = "";
})

abbrev world : World
world = record { storage = ("player_token", "t") ∷ ("user_role", "player") ∷ []; sent = [] }

submit_register-Settled_example :
    Settled accepting "http://x"
      (str "k")
      "player"
      picker
      none
      view
      world
      (submit_register accepting "http://x" (str "k") "player" picker none view world).0
      (submit_register accepting "http://x" (str "k") "player" picker none view world).1
submit_register-Settled_example =
    submit_register-Settled accepting "http://x" (str "k") "player" picker none view world refl refl

unsigned_wrong : (day : Option ℕ) → validate_ky picker none unsigned.reg ≢ []
unsigned_wrong day e =
    let signed = ((validate_ky_iff picker none unsigned.reg).0 e).2 in
    let confirmed : false ≡ true = signed.1 in cc
