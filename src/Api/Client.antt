-- ===== src/Api/Client.antt =====
-- api/competitions.js: base URL, headers, `safeFetch` and `tryFirst`. The debug output is left out:
-- it reads the request and the reply and changes nothing.
use Prim.Native.String.{◌++◌ as ◌<>◌}
use Prim.Native.Char.{code}
use tkd_chb.Base.{
  ℕ, String, ◌==◌, Bool, true, false, not, ◌&&◌, ◌||◌, Option, none, some, List, [], ◌∷◌, ◌++◌,
  if◌then◌else◌, eqb,
}
use tkd_chb.Base.Text.{show_number}
use tkd_chb.Base.Js.{
  Js, null, str, obj, field, end, truthy, or_else, get, is_array, is_object, elements, values, flat,
  join_items, to_text,
}
use tkd_chb.Base.Exec.{Attempt, Failure, error, Result, ok, err, Exec, throw, ◌>>=◌, catch}
use tkd_chb.Net.{Request, Response, Server, World, is_ok, fetch}
use tkd_chb.Session.{is_full, api_token}

-- .replace(/\/$/, "")
unfoldable pub drop_last_slash : String → String
drop_last_slash String.[] = ""
drop_last_slash (String.◌∷◌ c s) =
    let rest = drop_last_slash s in if eqb (code c) 47 && s == "" then "" else String.◌∷◌ c rest

default_base : Option String → String
default_base none = "http://127.0.0.1:8000"
default_base (some v) = if v == "" then "http://127.0.0.1:8000" else v

-- API_BASE, from the environment variable REACT_APP_API_BASE_URL
unfoldable pub api_base : Option String → String
unfolding drop_last_slash default_base
api_base env = drop_last_slash (default_base env)

with_bearer : Option String → List (String × String) → List (String × String)
with_bearer none headers = headers
with_bearer (some t) headers = headers ++ ("Authorization", "Bearer " <> t) ∷ []

abbrev json_headers : List (String × String)
json_headers = ("Accept", "application/json") ∷ ("Content-Type", "application/json") ∷ []

-- authHeaders(); no call of the program passes extra headers
unfoldable pub auth_headers : Exec World (List (String × String))
unfolding with_bearer
auth_headers w = (ok (with_bearer (api_token w.storage) json_headers), w)

-- The message asks the user to log in.
abbrev pub no_token : Failure
no_token =
    record (error
      "\u{628}\u{631}\u{627}\u{6cc} \u{627}\u{646}\u{62c}\u{627}\u{645} \u{627}\u{6cc}\u{646} \u{639}\u{645}\u{644}\u{6cc}\u{627}\u{62a} \u{628}\u{627}\u{6cc}\u{62f} \u{648}\u{627}\u{631}\u{62f} \u{634}\u{648}\u{6cc}\u{62f}.") {
        code = some "NO_TOKEN";
      }

headers_or_throw : Option String → Exec World (List (String × String))
unfolding with_bearer
headers_or_throw none = throw no_token
headers_or_throw (some t) = auth_headers

unfoldable pub require_auth_headers : Exec World (List (String × String))
unfolding headers_or_throw auth_headers
require_auth_headers w = headers_or_throw (api_token w.storage) w

-- Array.isArray(v) ? v.join(" ") : null
unfoldable pub joined : Js → Js
joined v = if is_array v then str (join_items " " (elements v)) else null

-- Object.values(v).flat().join(" ") of an object
unfoldable pub field_errors : Js → Js
field_errors v = if truthy v && is_object v then str (join_items " " (flat (values v))) else null

abbrev pub http_text : ℕ → String
http_text status = "HTTP " <> show_number status

unfoldable pub message_value : ℕ → Js → Js
unfolding joined field_errors
message_value status found = or_else (get found "detail") (
    or_else (joined (get found "non_field_errors")) (
      or_else (joined (get found "__all__")) (
        or_else (field_errors (get found "errors"))
          (or_else (get found "message") (or_else (get found "error") (str (http_text status)))))))

unfoldable pub with_status_text : Response → Js → Js
with_status_text res message =
    if not (truthy message) && is_full res.status_text
    then str (show_number res.status <> " " <> res.status_text)
    else message

unfoldable pub http_failure : Response → Js → Failure
unfolding message_value with_status_text
http_failure res found = record {
  message =
      to_text (or_else (with_status_text res (message_value res.status found)) (str "HTTP Error"));
  code = none;
  status = some res.status;
  payload = found;
  tried = [];
}

-- let data = null; try { data = await res.json(); } catch {}
unfoldable pub data_of : Option Js → Js
data_of none = null
data_of (some v) = v

-- res.text(): a body can be read once, so it rejects after `res.json()`
text_of : (body_used : Bool) → Response → Option String
text_of true res = none
text_of false res = some res.text

raw_text : Option String → Js
raw_text none = null
raw_text (some t) = if t == "" then null else obj (field "raw" (str t) end)

is_null : Js → Bool
is_null null = true
is_null _ = false

-- what `safeFetch` makes of a response
unfoldable pub settled : Response → Result Js
unfolding data_of text_of raw_text is_null http_failure
settled res =
    let found = data_of res.json in
    if not (is_ok res.status)
    then err (http_failure res found)
    else if eqb res.status 204 || eqb res.status 205
    then ok null
    else if not (is_null found)
    then ok found
    else ok (raw_text (text_of true res))

unfoldable pub safe_fetch : Server → Request → Exec World Js
safe_fetch server req = do res ← fetch server req; λ w. (settled res, w)

abbrev pub attempt : String → Failure → Attempt
attempt url e = record { url = url; status = e.status; message = e.message }

-- e?.status && e.status !== 404
abbrev pub stops : Option ℕ → Bool
stops none = false
stops (some n) = not (eqb n 0) && not (eqb n 404)

abbrev pub last_or_new : Option Failure → Failure
last_or_new none = error "No endpoint responded"
last_or_new (some e) = e

unfoldable pub try_from :
    Server → Request → List String → Option Failure → List Attempt → Exec World Js
try_from server opts [] last tried = throw (record (last_or_new last) { tried = tried })
try_from server opts (u ∷ us) last tried = catch (safe_fetch server (record opts { url = u })) λ e.
    let seen = tried ++ attempt u e ∷ [] in
    let rest = try_from server opts us (some e) seen in
    if stops e.status then throw (record e { tried = seen }) else rest

unfoldable pub try_first : Server → List String → Request → Exec World Js
unfolding try_from
try_first server urls opts = try_from server opts urls none []
