-- ===== src/Panel/Examples.antt =====
-- The panels at concrete clubs, coaches and requests.
use tkd_chb.Base.{◌≡◌, refl, ℕ, true, false, ◌||◌, none, [], ◌∷◌, any, arith}
use tkd_chb.Base.Js.{Js, num, str, bool, object}
use tkd_chb.Storage.{Storage}
use tkd_chb.Net.{World}
use tkd_chb.Axios.{Axios, resolved}
use tkd_chb.Panel.{has_id}
use tkd_chb.Panel.Clubs.{Choice}
use tkd_chb.Panel.Clubs.Laws.{IsChoice, toggles, toggles-IsChoice}
use tkd_chb.Panel.Coaches.{Coaches, toggle_coach}
use tkd_chb.Panel.Coaches.Laws.{click, offers, run-selected}
use tkd_chb.Panel.Requests.{Requests, respond_request, respond}
use tkd_chb.Panel.Requests.Laws.{Shows, respond-Shows}

abbrev chosen : Choice
chosen = record { all_clubs = []; selected_clubs = 4 ∷ 9 ∷ []; loading = false; alerts = [] }

toggles-IsChoice_example : IsChoice (toggles (5 ∷ 6 ∷ 4 ∷ []) chosen)
toggles-IsChoice_example =
    toggles-IsChoice (5 ∷ 6 ∷ 4 ∷ []) chosen
      (record { few = omega arith; apart = (refl, (refl, tt)) })

abbrev club : ℕ → Js
club n = object (("id", num n) ∷ [])

abbrev no_coaches : Coaches
no_coaches = record {
  all_coaches = [];
  selected_coaches = [];
  modal = none;
  confirm_changes = false;
  loading = false;
  alerts = [];
}

abbrev omid : Js
omid = object (("id", num 8) ∷ ("club_count", num 2) ∷ [])

run-selected_example :
    (has_id 8 no_coaches.selected_coaches || any (offers 8) (click omid ∷ [])) ≡ true
unfolding toggle_coach
run-selected_example = run-selected 8 (click omid ∷ []) no_coaches refl

abbrev axios : Axios
axios req w = (resolved (bool true), w)

abbrev coach : Storage
coach = ("user_role", "coach") ∷ ("coach_token", "t") ∷ []

abbrev world : World
world = record { storage = coach; sent = [] }

abbrev request : ℕ → Js
request n = object (("id", num n) ∷ ("status", str "pending") ∷ [])

abbrev waiting : Requests
waiting = record {
  requests = request 3 ∷ request 4 ∷ [];
  loading = false;
  responding_id = none;
  has_new_requests = true;
  toasts = [];
}

respond-Shows_example :
    Shows 4 "accept"
      (axios (respond_request coach 4 "accept") world).0
      waiting.requests
      (respond axios coach 4 "accept" waiting world).0.requests
    × ((respond axios coach 4 "accept" waiting world).1
        ≡ (axios (respond_request coach 4 "accept") world).1)
    × ((respond axios coach 4 "accept" waiting world).0.responding_id ≡ none)
respond-Shows_example = respond-Shows axios coach 4 "accept" waiting world
