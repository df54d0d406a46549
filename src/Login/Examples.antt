-- ===== src/Login/Examples.antt =====
-- The theorems on the login at concrete replies.
use tkd_chb.Base.{◌≡◌, refl, false, some, [], ◌∷◌}
use tkd_chb.Base.Text.{to_lower_case}
use tkd_chb.Base.Js.{Js, str, obj, field, end, to_text}
use tkd_chb.Net.{Server, World, answered}
use tkd_chb.Storage.{Storage, get_item}
use tkd_chb.Session.{api_token}
use tkd_chb.Login.{Modal, role_from_api, token_from_api, sign_in, handle_login, normalize_role}
use tkd_chb.Login.Laws.{api_token-sign_in_stale, Settled, login_reply, handle_login-Settled}

abbrev player_reply : Js
player_reply = obj (field "role" (str "Player") (field "access" (str "new") end))

abbrev left_over : Storage
left_over = ("coach_token", "old") ∷ ("user_role", "coach") ∷ []

api_token-sign_in_stale_example :
    api_token (sign_in (role_from_api player_reply) (token_from_api player_reply) left_over)
    ≡ some "old"
unfolding token_from_api role_from_api normalize_role to_lower_case to_text get_item
api_token-sign_in_stale_example =
    api_token-sign_in_stale player_reply "new" "old" left_over refl refl refl refl refl

abbrev welcome : Server
welcome sent req =
    answered (record { status = 200; status_text = "OK"; json = some player_reply; text = "" })

abbrev typed : Modal
typed = record {
  username = "09121234567";
  password = "secret";
  error = "";
  loading = false;
  closed = false;
  went = [];
}

abbrev fresh : World
fresh = record { storage = left_over; sent = [] }

handle_login-Settled_example :
    Settled "player"
      (login_reply welcome "http://x" "player" typed fresh)
      typed
      fresh
      (handle_login welcome "http://x" "player" typed fresh).0
      (handle_login welcome "http://x" "player" typed fresh).1
handle_login-Settled_example = handle_login-Settled welcome "http://x" "player" typed fresh refl
