-- ===== src/Session.antt =====
-- The session: which entries of localStorage hold the token, who may enter, and the logout.
-- tkdfrontend/src/api/competitions.js, api/profile.js, components/common/PrivateRoute.jsx and
-- components/Login/panel/Dashboard.jsx.
pub mod Laws
pub mod Logout
mod Examples
use Prim.Native.String.{◌++◌ as ◌<>◌}
use tkd_chb.Base.{
  String, ◌==◌, Bool, true, false, not, ◌&&◌, ◌||◌, Option, none, some, List, [], ◌∷◌, ◌++◌,
  if◌then◌else◌,
}
use tkd_chb.Base.Text.{to_lower_case, trim}
use tkd_chb.Storage.{Storage, get_item, remove_item, remove_items}

-- localStorage.getItem(k) || ""
unfoldable pub text_or_empty : Option String → String
text_or_empty none = ""
text_or_empty (some v) = v

unfoldable pub user_role : Storage → String
unfolding text_or_empty get_item
user_role s = text_or_empty (get_item s "user_role")

-- `${role}_token`
abbrev pub token_key : String → String
token_key role = role <> "_token"

abbrev pub is_full : String → Bool
is_full v = not (v == "")

-- PrivateRoute also refuses the texts that a careless `setItem` leaves behind
abbrev pub is_real : String → Bool
is_real v = is_full v && not (v == "null") && not (v == "undefined")

accepted : (String → Bool) → Option String → Option String
accepted p none = none
accepted p (some v) = if p v then some v else none

or_next : Option String → Option String → Option String
or_next none r = r
or_next (some v) r = some v

-- for (const k of keys) { const v = localStorage.getItem(k); if (v) return v; } return null
unfoldable pub first_item : (String → Bool) → List String → Storage → Option String
unfolding accepted or_next get_item
first_item p [] s = none
first_item p (k ∷ ks) s = or_next (accepted p (get_item s k)) (first_item p ks s)

-- api/competitions.js: coach, both, the role's own, access_token, token
abbrev pub role_keys : String → List String
role_keys role = if role == "" then [] else token_key role ∷ []

unfoldable pub api_keys : Storage → List String
unfolding user_role to_lower_case trim
api_keys s =
    "coach_token" ∷ "both_token" ∷ role_keys (trim (to_lower_case (user_role s)))
    ++ "access_token" ∷ "token" ∷ []

unfoldable pub api_token : Storage → Option String
api_token s = first_item is_full (api_keys s) s

-- api/profile.js
unfoldable pub profile_token : Storage → Option String
unfolding first_item user_role
profile_token s =
    first_item is_full
      (token_key (user_role s)
        ∷ "both_token"
        ∷ "coach_token"
        ∷ "player_token"
        ∷ "referee_token"
        ∷ "club_token"
        ∷ "access_token"
        ∷ [])
      s

-- components/common/PrivateRoute.jsx
unfoldable pub route_token : Storage → Option String
unfolding first_item user_role
route_token s =
    first_item is_real
      (token_key (user_role s)
        ∷ "both_token"
        ∷ "player_token"
        ∷ "coach_token"
        ∷ "referee_token"
        ∷ "club_token"
        ∷ "heyat_token"
        ∷ "access_token"
        ∷ [])
      s

pub data Page : Type 0 where
  children home : Page

page_for : Option String → Page
page_for none = home
page_for (some _) = children

-- <PrivateRoute>: the children, or a redirect to "/"
unfoldable pub private_route : Storage → Page
unfolding page_for route_token
private_route s = page_for (route_token s)

has_token : String → Storage → Bool
has_token role s = is_full (text_or_empty (get_item s (token_key role)))

-- The guard of the dashboard: the saved role, with a token of its own.
unfoldable pub dashboard_open : Storage → Bool
unfolding has_token user_role text_or_empty
dashboard_open s = is_full (user_role s) && has_token (user_role s) s

abbrev pub logout_keys : List String
logout_keys =
    "both_token" ∷ "player_token" ∷ "coach_token" ∷ "referee_token" ∷ "club_token" ∷ "heyat_token"
    ∷ "board_token" ∷ "access_token" ∷ []

forget_role : String → Storage → Storage
forget_role role s =
    if is_full role then remove_item "user_role" (remove_item (token_key role) s) else s

-- the logout of Dashboard.jsx
unfoldable pub logout : Storage → Storage
unfolding forget_role user_role remove_items remove_item get_item
logout s = forget_role (user_role s) (remove_items logout_keys s)
