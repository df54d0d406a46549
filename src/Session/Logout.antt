-- ===== src/Session/Logout.antt =====
-- What the logout of Dashboard.jsx removes, and what it leaves.
use Prim.Native.String.{count}
use text.Mathlib.TextLemmas.{length-append}
use tkd_chb.Base.{
  ◌≡◌, every, All, ◌≢◌, ◌↔◌, refl, ap, String, eq_iff, Bool, true, none, some, List, [], ◌∷◌, arith,
}
use tkd_chb.Base.Text.{to_lower_case, trim}
use tkd_chb.Storage.{
  Storage, get_item, remove_item, remove_items, get_item-remove_item, listed, get_item-remove_items,
}
use tkd_chb.Session.{
  user_role, token_key, is_full, is_real, first_item, api_keys, api_token, route_token, home,
  private_route, logout_keys, forget_role, logout,
}
use tkd_chb.Session.Laws.{IsRejected, first_item-eq-none}

-- A removal never brings an entry back.
get_item-forget_role :
    (role k : String) (s : Storage) → get_item s k ≡ none → get_item (forget_role role s) k ≡ none
unfolding forget_role
get_item-forget_role role k s h = ground (
  arith,
  get_item-remove_item "user_role" k (remove_item (token_key role) s),
  get_item-remove_item (token_key role) k s,
)

-- No entry that the logout names is left.
pub get_item-logout :
    (k : String) (s : Storage) → listed logout_keys k ≡ true → get_item (logout s) k ≡ none
unfolding logout
get_item-logout k s h =
    get_item-forget_role (user_role s) k (remove_items logout_keys s)
      (ground (arith, get_item-remove_items logout_keys k s))

token_key-ne-token : (role : String) → token_key role ≢ "token"
token_key-ne-token role e = omega (arith, length-append role "_token", ap count e)

-- The entry `token` is not touched.
pub get_item-logout_token : (s : Storage) → get_item (logout s) "token" ≡ get_item s "token"
unfolding logout forget_role
get_item-logout_token s = ground (
  arith,
  get_item-remove_item "user_role" "token"
      (remove_item (token_key (user_role s)) (remove_items logout_keys s)),
  get_item-remove_item (token_key (user_role s)) "token" (remove_items logout_keys s),
  get_item-remove_items logout_keys "token" s,
  token_key-ne-token (user_role s),
  eq_iff (token_key (user_role s)) "token",
)

user_role-forget_role :
    (s : Storage) (role : String) → (role ≡ user_role s) → user_role (forget_role role s) ≡ ""
unfolding forget_role user_role
user_role-forget_role s role e = ground (
  arith,
  eq_iff role "",
  get_item-remove_item "user_role" "user_role" (remove_item (token_key role) s),
)

-- After a logout no role is stored.
pub user_role-logout : (s : Storage) → user_role (logout s) ≡ ""
unfolding logout
user_role-logout s =
    user_role-forget_role (remove_items logout_keys s) (user_role s)
      (unfold user_role in rw (get_item-remove_items logout_keys "user_role" s))

-- A key that the logout names is rejected afterwards.
IsRejected-logout :
    (p : String → Bool) (s : Storage) (k : String)
    → listed logout_keys k ≡ true
    → IsRejected p (logout s) k
IsRejected-logout p s k h v e = cc (e, get_item-logout k s h)

All-IsRejected-logout :
    (p : String → Bool) (s : Storage) (ks : List String)
    → every (listed logout_keys) ks ≡ true
    → All (IsRejected p (logout s)) ks
All-IsRejected-logout p s [] h = tt
All-IsRejected-logout p s (k ∷ ks) h =
    (IsRejected-logout p s k (ground arith), All-IsRejected-logout p s ks (ground arith))

abbrev route_keys : List String
route_keys =
    "both_token" ∷ "player_token" ∷ "coach_token" ∷ "referee_token" ∷ "club_token" ∷ "heyat_token"
    ∷ "access_token" ∷ []

abbrev signed_out_keys : List String
signed_out_keys = token_key "" ∷ route_keys

no_empty_key : (s : Storage) → get_item s "_token" ≡ none → get_item (logout s) "_token" ≡ none
unfolding logout
no_empty_key s h =
    get_item-forget_role (user_role s) "_token" (remove_items logout_keys s)
      (rw (get_item-remove_items logout_keys "_token" s) h)

-- After a logout every private page redirects to the home page, if no entry stood under the key
-- "_token", which is the key of the empty role.
pub private_route-logout :
    (s : Storage) → get_item s "_token" ≡ none → private_route (logout s) ≡ home
unfolding private_route route_token
private_route-logout s h = rw (user_role-logout s) (
    rw
      (first_item-eq-none is_real (logout s) signed_out_keys
        ((λ v e. cc (e, no_empty_key s h)), All-IsRejected-logout is_real s route_keys refl))
      refl)

api_keys-logout :
    (s : Storage)
    → api_keys (logout s) ≡ "coach_token" ∷ "both_token" ∷ "access_token" ∷ "token" ∷ []
unfolding api_keys to_lower_case trim
api_keys-logout s = rw (user_role-logout s) refl

-- After a logout the API still finds a token exactly when the entry "token" holds a text.
pub api_token-logout_iff :
    (s : Storage) (v : String)
    → (api_token (logout s) ≡ some v) ↔ ((get_item s "token" ≡ some v) × (is_full v ≡ true))
unfolding api_token first_item
api_token-logout_iff s v = rw (api_keys-logout s) (
    rw (get_item-logout "coach_token" s refl) (
      rw (get_item-logout "both_token" s refl)
        (rw (get_item-logout "access_token" s refl) (rw (get_item-logout_token s) (ground arith)))))
