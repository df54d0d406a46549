-- ===== src/Api/Examples.antt =====
-- The theorems on the API client at concrete servers, worlds and values.
use tkd_chb.Base.{◌≡◌, ◌↔◌, refl, some, none, List, [], ◌∷◌, String, false, if◌then◌else◌, ◌==◌}
use tkd_chb.Base.Js.{Fields, undefined, num, str, obj, end, field}
use tkd_chb.Base.Exec.{ok}
use tkd_chb.Base.Text.{to_lower_case}
use tkd_chb.Net.{Request, Response, answered, Server, World}
use tkd_chb.Api.Client.{settled, safe_fetch, try_first}
use tkd_chb.Api.Candidates.{Answers, Asks, try_first-ok_iff, try_first-Asks}
use tkd_chb.Api.Values.{compact}
use tkd_chb.Api.Bodies.{compact_idem}
use tkd_chb.Api.Roles.{is_club_like, should_show_self_register}
use tkd_chb.Api.RoleLaws.{club_like_hides_self_register}

-- It knows the address "/b" alone.
abbrev second_only : Server
second_only sent req =
    if req.url == "/b"
    then answered (record { status = 200; status_text = "OK"; json = some (num 7); text = "7" })
    else answered (record { status = 404; status_text = "Not Found"; json = none; text = "" })

abbrev ask : Request
ask = record { url = ""; method = "GET"; headers = []; body = undefined }

abbrev empty_world : World
empty_world = record { storage = []; sent = [] }

abbrev asked_both : World
asked_both = record {
  storage = [];
  sent = record ask { url = "/a" } ∷ record ask { url = "/b" } ∷ [];
}

try_first-ok_iff_example :
    (try_first second_only ("/a" ∷ "/b" ∷ "/c" ∷ []) ask empty_world ≡ (ok (num 7), asked_both)) ↔ (
      Answers second_only ask (num 7) [] ("/a" ∷ "/b" ∷ "/c" ∷ []) asked_both.sent
      × (◌≡◌ {A = List (String × String)} [] []))
try_first-ok_iff_example =
    try_first-ok_iff second_only ask ("/a" ∷ "/b" ∷ "/c" ∷ []) empty_world asked_both (num 7)

try_first_test :
    try_first second_only ("/a" ∷ "/b" ∷ "/c" ∷ []) ask empty_world ≡ (ok (num 7), asked_both)
unfolding try_first safe_fetch settled
try_first_test = refl

try_first-Asks_example :
    Asks second_only ask
      ("/a" ∷ "/c" ∷ [])
      []
      empty_world
      (try_first second_only ("/a" ∷ "/c" ∷ []) ask empty_world)
try_first-Asks_example = try_first-Asks second_only ask ("/a" ∷ "/c" ∷ []) empty_world

abbrev bad_gateway : Response
bad_gateway = record { status = 502; status_text = "Bad Gateway"; json = none; text = "" }

club_like_hides_self_register_example :
    (should_show_self_register (str "Club") undefined [] ≡ false)
    × (should_show_self_register (obj end) (str "Club") [] ≡ false)
unfolding is_club_like to_lower_case
club_like_hides_self_register_example = club_like_hides_self_register "Club" end [] refl

abbrev with_detail : Response
with_detail = record {
  status = 409;
  status_text = "Conflict";
  json = some (obj (field "detail" (str "taken") end));
  text = "";
}

abbrev loose_fields : Fields
loose_fields = field "a" (str " ") (field "b" (num 0) (field "c" undefined end))

compact_idem_example : compact (compact loose_fields) ≡ compact loose_fields
compact_idem_example = compact_idem loose_fields
