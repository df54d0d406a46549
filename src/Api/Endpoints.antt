-- ===== src/Api/Endpoints.antt =====
-- api/competitions.js: the endpoints. `base` is API_BASE and `server` what answers the requests.
use Prim.Native.String.{◌++◌ as ◌<>◌}
use text.Mathlib.Text.{starts_with}
use tkd_chb.Base.{String, ◌==◌, true, not, Option, none, some, List, [], ◌∷◌, eqb, if◌then◌else◌}
use tkd_chb.Base.Text.{trim}
use tkd_chb.Base.Js.{
  Js, undefined, null, bool, str, obj, end, field, array, object, truthy, coalesce, or_else, get,
  is_array, to_text,
}
use tkd_chb.Base.Exec.{Failure, error, Result, Exec, pure, throw, ◌>>=◌, catch}
use tkd_chb.Net.{Request, Response, Server, World, is_ok, fetch}
use tkd_chb.Api.Client.{auth_headers, require_auth_headers, safe_fetch, try_first, http_text}
use tkd_chb.Api.Values.{compact, normalize_list, trimmed, trimmed_text}
use tkd_chb.Api.Shapes.{
  encoded_key, encoded, poomsae_prefill, lowered, students_of, no_students, is_404, Bracket,
  bracket_of, Results, results_of,
}

abbrev pub Headers : Type 0
Headers = List (String × String)

abbrev pub get_request : String → Headers → Request
get_request url headers = record { url = url; method = "GET"; headers = headers; body = undefined }

abbrev pub post_request : String → Headers → Js → Request
post_request url headers body = record {
  url = url;
  method = "POST";
  headers = headers;
  body = body;
}

-- lifts a computation that may throw and touches nothing
abbrev from_result : Result Js → Exec World Js
from_result r w = (r, w)

module _ (server : Server) (base : String) where
  abbrev pub ky_public : String
  ky_public = base <> "/api/competitions/kyorugi"

  abbrev pub ky_auth : String
  ky_auth = base <> "/api/competitions/auth/kyorugi"

  abbrev pub poom_public : String
  poom_public = base <> "/api/competitions/poomsae"

  abbrev pub poom_auth : String
  poom_auth = base <> "/api/competitions/auth/poomsae"

  abbrev pub any_public : String
  any_public = base <> "/api/competitions"

  -- requireAuthHeaders(), then one GET
  abbrev auth_get : String → Exec World Js
  auth_get url = do headers ← require_auth_headers; safe_fetch server (get_request url headers)

  abbrev auth_post : String → Js → Exec World Js
  auth_post url body = do
    headers ← require_auth_headers
    safe_fetch server (post_request url headers body)

  -- authHeaders(), then the first candidate that answers
  abbrev first_get : List String → Exec World Js
  first_get urls = do headers ← auth_headers; try_first server urls (get_request "" headers)

  abbrev pub terms_urls : String → List String
  terms_urls k =
      (any_public <> "/by-public/" <> k <> "/terms/")
      ∷ (any_public <> "/" <> k <> "/terms/")
      ∷ (ky_public <> "/" <> k <> "/terms/")
      ∷ []

  unfoldable pub get_competition_terms : Js → Exec World Js
  get_competition_terms key = first_get (terms_urls (encoded_key key))

  abbrev pub detail_urls : String → List String
  detail_urls k =
      (any_public <> "/by-public/" <> k <> "/")
      ∷ (any_public <> "/" <> k <> "/")
      ∷ (ky_public <> "/" <> k <> "/")
      ∷ (poom_public <> "/" <> k <> "/")
      ∷ []

  unfoldable pub get_competition_detail : Js → Exec World Js
  get_competition_detail key = first_get (detail_urls (encoded_key key))

  unfoldable pub get_coach_approval_status : Js → Exec World Js
  get_coach_approval_status id =
      auth_get (ky_auth <> "/" <> encoded id <> "/coach-approval/status/")

  abbrev agreed : Js
  agreed = object (("agree", bool true) ∷ [])

  unfoldable pub approve_competition : Js → Exec World Js
  approve_competition id =
      auth_post (ky_auth <> "/" <> encoded id <> "/coach-approval/approve/") agreed

  unfoldable pub get_poomsae_coach_approval_status : Js → Exec World Js
  get_poomsae_coach_approval_status id =
      auth_get (poom_auth <> "/" <> encoded id <> "/coach-approval/status/")

  unfoldable pub approve_poomsae_competition : Js → Exec World Js
  approve_poomsae_competition id =
      auth_post (poom_auth <> "/" <> encoded id <> "/coach-approval/approve/") agreed

  unfoldable pub get_register_self_prefill : Js → Exec World Js
  get_register_self_prefill id = auth_get (ky_auth <> "/" <> encoded id <> "/prefill/")

  -- a text field of the payload, trimmed
  abbrev field_of : Js → String → Exec World Js
  field_of payload k = from_result (trimmed (get payload k))

  unfoldable pub register_self : Js → Js → Exec World Js
  register_self id payload = do
    headers ← require_auth_headers
    coach_code ← field_of payload "coach_code"
    insurance_number ← field_of payload "insurance_number"
    insurance_issue_date ← field_of payload "insurance_issue_date"
    safe_fetch server (
        post_request (ky_auth <> "/" <> encoded id <> "/register/self/") headers (
          obj (
            compact (
              field "coach_code" coach_code (
                field "declared_weight"
                  (str (trim (to_text (coalesce (get payload "declared_weight") (str "")))))
                  (field "insurance_number" insurance_number
                    (field "insurance_issue_date" insurance_issue_date end)))))))

  unfoldable pub build_poomsae_prefill : Js → Exec World Js
  build_poomsae_prefill id = do detail ← get_competition_detail id; pure (poomsae_prefill detail)

  unfoldable pub register_self_poomsae : Js → Js → Exec World Js
  register_self_poomsae id payload =
      auth_post (poom_auth <> "/" <> encoded id <> "/register/self/") (
        obj (
          compact (
            field "coach_code" (trimmed_text (get payload "coach_code")) (
              field "poomsae_type" (lowered (get payload "poomsae_type")) (
                field "insurance_number" (trimmed_text (get payload "insurance_number"))
                  (field "insurance_issue_date" (get payload "insurance_issue_date") end))))))

  unfoldable pub get_coach_eligible_students : Js → Exec World Js
  get_coach_eligible_students key =
      auth_get (ky_auth <> "/" <> encoded key <> "/coach/students/eligible/")

  post_students : String → Headers → List Js → Exec World Js
  post_students url headers [] = throw no_students
  post_students url headers (s ∷ ss) =
      safe_fetch server (post_request url headers (object (("students", array (s ∷ ss)) ∷ [])))

  unfoldable pub register_students_bulk : Js → Js → Exec World Js
  unfolding post_students
  register_students_bulk key v = do
    headers ← require_auth_headers
    post_students (ky_auth <> "/" <> encoded key <> "/coach/register/students/") headers
        (students_of v)

  abbrev cards_url : String
  cards_url = base <> "/api/competitions/auth/enrollments/cards/bulk/"

  unfoldable pub request_bulk_cards : Js → Exec World Js
  request_bulk_cards ids = auth_post cards_url (object (("enrollment_ids", ids) ∷ []))

  unfoldable pub get_kyorugi_list_from_dashboard : Exec World (List Js)
  get_kyorugi_list_from_dashboard = do
    headers ← require_auth_headers
    res ←
        try_first server
          ((base <> "/api/competitions/auth/dashboard/all/")
            ∷ (base <> "/api/competitions/auth/dashboard/kyorugi/")
            ∷ [])
          (get_request "" headers)
    pure (normalize_list res)

  -- every failure gives the empty list
  unfoldable pub get_competitions_for_role : Exec World (List Js)
  get_competitions_for_role = catch get_kyorugi_list_from_dashboard (λ e. pure [])

  unfoldable pub get_player_open_competitions : Exec World Js
  get_player_open_competitions = auth_get (base <> "/api/competitions/kyorugi/player/competitions/")

  unfoldable pub get_referee_open_competitions : Exec World Js
  get_referee_open_competitions =
      auth_get (base <> "/api/competitions/kyorugi/referee/competitions/")

  unfoldable pub get_enrollment_detail : Js → Exec World Js
  unfolding is_404
  get_enrollment_detail id = do
    headers ← require_auth_headers
    let root = base <> "/api/competitions/auth/enrollments/" <> trim (to_text id)
    catch (safe_fetch server (get_request (root <> "/card/") headers)) λ e.
        if is_404 e.status then safe_fetch server (get_request (root <> "/") headers) else throw e

  abbrev card_url : Js → Js
  card_url id =
      if truthy id
      then str (base <> "/api/competitions/auth/enrollments/" <> encoded id <> "/card/")
      else null

  unfoldable pub get_enrollment_card_url : Js → Js
  get_enrollment_card_url (str s) = str (if starts_with s "http" then s else base <> s)
  get_enrollment_card_url e =
      card_url (or_else (get e "id") (or_else (get e "enrollment_id") (get e "pk")))

  unfoldable pub get_enrollment_card : Js → Exec World Js
  get_enrollment_card id =
      auth_get (base <> "/api/competitions/auth/enrollments/" <> encoded id <> "/card/")

  unfoldable pub get_my_enrollment : Js → Exec World Js
  get_my_enrollment id = auth_get (ky_auth <> "/" <> encoded id <> "/my-enrollment/")

  -- await res.json(), which rejects on a body that is no JSON
  json_or_throw : Option Js → Exec World Js
  json_or_throw none = throw (error "the body is no JSON")
  json_or_throw (some v) = pure v

  abbrev text_or_status : Response → Failure
  text_or_status res = error (if res.text == "" then http_text res.status else res.text)

  my_enrollments_from : Headers → List String → Exec World Js
  unfolding json_or_throw
  my_enrollments_from headers [] = throw (error "the my-enrollments endpoint was not found")
  my_enrollments_from headers (url ∷ urls) =
      let rest = my_enrollments_from headers urls in
      fetch server (get_request url headers) >>= λ res.
      if is_ok res.status
      then json_or_throw res.json
      else if not (eqb res.status 404)
      then throw (text_or_status res)
      else rest

  unfoldable pub get_my_poomsae_enrollments : Js → Exec World Js
  unfolding my_enrollments_from
  get_my_poomsae_enrollments key = do
    headers ← auth_headers
    my_enrollments_from headers (
        (base <> "/api/competitions/auth/poomsae/" <> encoded_key key <> "/my-enrollments/")
        ∷ (base <> "/api/competitions/poomsae/" <> encoded_key key <> "/my-enrollments/")
        ∷ [])

  unfoldable pub get_bracket : Js → Exec World Bracket
  get_bracket id = do
    found ← first_get (
        (ky_public <> "/" <> encoded id <> "/bracket/")
        ∷ (any_public <> "/by-public/" <> encoded id <> "/bracket/")
        ∷ [])
    pure (bracket_of found)

  unfoldable pub get_competition_results : Js → Exec World Results
  get_competition_results id = do
    found ← first_get (
        (ky_public <> "/" <> encoded id <> "/results/")
        ∷ (any_public <> "/by-public/" <> encoded id <> "/results/")
        ∷ (any_public <> "/" <> encoded id <> "/results/")
        ∷ [])
    pure (results_of found)

  unfoldable pub get_seminar_detail : Js → Exec World Js
  get_seminar_detail id = safe_fetch server (
      get_request (base <> "/api/competitions/seminars/" <> encoded id <> "/")
        (("Accept", "application/json") ∷ []))

  unfoldable pub register_seminar : Js → Js → Exec World Js
  register_seminar id payload =
      auth_post (base <> "/api/competitions/auth/seminars/" <> encoded id <> "/register/") (
        object (
          ("roles", if is_array (get payload "roles") then get payload "roles" else array [])
          ∷ ("phone", coalesce (get payload "phone") (str ""))
          ∷ ("note", coalesce (get payload "note") (str ""))
          ∷ []))
