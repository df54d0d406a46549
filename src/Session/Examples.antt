-- ===== src/Session/Examples.antt =====
-- The theorems on the session at concrete storages.
use tkd_chb.Base.{◌≡◌, ◌↔◌, refl, some, [], ◌∷◌, true}
use tkd_chb.Storage.{Storage, get_item}
use tkd_chb.Session.{is_full, api_token, private_route, home, logout}
use tkd_chb.Session.Logout.{private_route-logout, api_token-logout_iff}

abbrev signed_in : Storage
signed_in = ("user_role", "player") ∷ ("player_token", "abc") ∷ ("token", "old") ∷ []

private_route-logout_example : private_route (logout signed_in) ≡ home
unfolding logout get_item
private_route-logout_example = private_route-logout signed_in refl

api_token-logout_iff_example :
    (api_token (logout signed_in) ≡ some "old")
    ↔ ((get_item signed_in "token" ≡ some "old") × (is_full "old" ≡ true))
api_token-logout_iff_example = api_token-logout_iff signed_in "old"
