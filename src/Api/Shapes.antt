-- ===== src/Api/Shapes.antt =====
-- api/competitions.js: what the endpoints make of their arguments and of the replies.
use tkd_chb.Base.{
  ℕ, String, Bool, true, false, Option, none, some, List, [], ◌∷◌, eqb, length, if◌then◌else◌,
}
use tkd_chb.Base.Text.{trim, to_lower_case, encode_uri_component}
use tkd_chb.Base.Js.{
  Js, undefined, bool, num, str, obj, end, array, object, truthy, coalesce, or_else, get, is_array,
  elements, to_text,
}
use tkd_chb.Base.Exec.{Failure, error}

-- encodeURIComponent(String(key || "").trim())
unfoldable pub encoded_key : Js → String
encoded_key key = encode_uri_component (trim (to_text (or_else key (str ""))))

-- encodeURIComponent(publicId)
unfoldable pub encoded : Js → String
encoded v = encode_uri_component (to_text v)

-- a ?? b ?? c of the flags of a competition, as a truth value
abbrev can_register : Js → Js
can_register detail =
    coalesce (get detail "registration_open_effective")
      (coalesce (get detail "registration_open") (get detail "can_register"))

unfoldable pub poomsae_prefill : Js → Js
poomsae_prefill detail =
    let locked = or_else (get detail "me_locked") (or_else (get detail "my_profile") (obj end)) in
    let text_at = λ (k : String). or_else (get locked k) (str "") in
    object (
      ("can_register", bool (truthy (can_register detail)))
      ∷ (
        "locked",
        object (
            ("first_name", text_at "first_name")
            ∷ ("last_name", text_at "last_name")
            ∷ (
              "national_code",
              or_else (get locked "national_id") (or_else (get locked "nationalCode") (str "")),
            )
            ∷ (
              "birth_date",
              or_else (get locked "birth_date") (or_else (get locked "birthDate") (str "")),
            )
            ∷ ("belt", text_at "belt")
            ∷ ("club", text_at "club")
            ∷ ("coach", text_at "coach")
            ∷ []),
      )
      ∷ ("suggested", object (("insurance_number", str "") ∷ ("insurance_issue_date", str "") ∷ []))
      ∷ ("need_coach_code", bool true)
      ∷ [])

-- payload?.k ? String(payload.k).toLowerCase() : undefined
abbrev pub lowered : Js → Js
lowered v = if truthy v then str (to_lower_case (to_text v)) else undefined

unfoldable pub students_of : Js → List Js
students_of v = if is_array (get v "students") then elements (get v "students") else elements v

abbrev pub no_students : Failure
no_students = error "the payload wants an array of students"

unfoldable pub is_404 : Option ℕ → Bool
is_404 none = false
is_404 (some n) = eqb n 404

pub record Bracket : Type 0 where
  pub ready : Js
  pub draws : Js
  pub by_mat : Js
  pub competition : Js

unfoldable pub bracket_of : Js → Bracket
bracket_of found = record {
  ready = coalesce (get (get found "competition") "bracket_ready") (bool true);
  draws = coalesce (get found "draws") (array []);
  by_mat = coalesce (get found "by_mat") (array []);
  competition = coalesce (get found "competition") (obj end);
}

pub record Results : Type 0 where
  pub results : List Js
  pub count : Js

-- Number.isFinite(data?.count) ? data.count : results.length
count_or_length : Js → List Js → Js
count_or_length (num n) results = num n
count_or_length v results = num (length results)

unfoldable pub results_of : Js → Results
unfolding count_or_length
results_of found =
    let results =
      if is_array (get found "results") then elements (get found "results") else elements found in
    record { results = results; count = count_or_length (get found "count") results }
