-- ===== src/Api/Guards.antt =====
-- The endpoints that want a token.
use tkd_chb.Base.{◌≡◌, refl, String, none, List, [], ◌∷◌, All}
use tkd_chb.Base.Js.{Js}
use tkd_chb.Base.Exec.{Exec, ok, err}
use tkd_chb.Net.{Server, World}
use tkd_chb.Session.{api_token}
use tkd_chb.Api.Client.{require_auth_headers, no_token}
use tkd_chb.Api.Endpoints.{
  get_coach_approval_status, approve_competition, get_poomsae_coach_approval_status,
  approve_poomsae_competition, get_register_self_prefill, register_self, register_self_poomsae,
  get_coach_eligible_students, register_students_bulk, request_bulk_cards,
  get_player_open_competitions, get_referee_open_competitions, get_enrollment_detail,
  get_enrollment_card, get_my_enrollment, register_seminar, get_competitions_for_role,
  get_kyorugi_list_from_dashboard,
}

-- Every endpoint that begins with `requireAuthHeaders()`.
abbrev pub guarded_calls : Server → String → Js → Js → List (Exec World Js)
guarded_calls server base id payload =
    get_coach_approval_status server base id
    ∷ approve_competition server base id
    ∷ get_poomsae_coach_approval_status server base id
    ∷ approve_poomsae_competition server base id
    ∷ get_register_self_prefill server base id
    ∷ register_self server base id payload
    ∷ register_self_poomsae server base id payload
    ∷ get_coach_eligible_students server base id
    ∷ register_students_bulk server base id payload
    ∷ request_bulk_cards server base id
    ∷ get_player_open_competitions server base
    ∷ get_referee_open_competitions server base
    ∷ get_enrollment_detail server base id
    ∷ get_enrollment_card server base id
    ∷ get_my_enrollment server base id
    ∷ register_seminar server base id payload
    ∷ []

no_headers : (w : World) → api_token w.storage ≡ none → require_auth_headers w ≡ (err no_token, w)
unfolding require_auth_headers
no_headers w h = rw h refl

-- With no token, every guarded endpoint fails with the code NO_TOKEN and sends no request.
pub guarded_calls_want_token :
    (server : Server) (base : String) (id payload : Js) (w : World)
    → api_token w.storage ≡ none
    → All (λ m. m w ≡ (err no_token, w)) (guarded_calls server base id payload)
unfolding get_coach_approval_status approve_competition get_poomsae_coach_approval_status
    approve_poomsae_competition get_register_self_prefill register_self register_self_poomsae
    get_coach_eligible_students register_students_bulk request_bulk_cards
    get_player_open_competitions get_referee_open_competitions get_enrollment_detail
    get_enrollment_card get_my_enrollment register_seminar
guarded_calls_want_token server base id payload w h = rw (no_headers w h) (assumption (refl, tt))

-- With no token the dashboard's list is empty, and nothing is sent.
pub get_competitions_for_role-no_token :
    (server : Server) (base : String) (w : World)
    → api_token w.storage ≡ none
    → get_competitions_for_role server base w ≡ (ok [], w)
unfolding get_competitions_for_role get_kyorugi_list_from_dashboard
get_competitions_for_role-no_token server base w h = rw (no_headers w h) refl
