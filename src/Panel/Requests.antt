-- ===== src/Panel/Requests.antt =====
-- CoachRequests.jsx: a coach accepts or rejects the requests of clubs.
pub mod Laws
use Prim.Native.String.{◌++◌ as ◌<>◌}
use tkd_chb.Base.{
  ℕ, String, ◌==◌, Bool, true, false, Option, none, some, List, [], ◌∷◌, ◌++◌, any, map, eqb,
  if◌then◌else◌,
}
use tkd_chb.Base.Text.{show_number}
use tkd_chb.Base.Js.{Js, str, object, get, is_array, elements, to_text}
use tkd_chb.Storage.{Storage}
use tkd_chb.Net.{Request, World}
use tkd_chb.Axios.{Answer, resolved, rejected, Axios, bearer, axios_get, axios_send}
use tkd_chb.Details.Locked.{set_field, entries_of}
use tkd_chb.Panel.{stored_token, panel_token, id_number}

pub record Requests : Type 0 where
  pub requests : List Js
  pub loading : Bool
  pub responding_id : Option ℕ
  pub has_new_requests : Bool
  pub toasts : List String

abbrev toast : String → Requests → Requests
toast text q = record q { toasts = q.toasts ++ text ∷ [] }

abbrev is_pending : Js → Bool
is_pending (str s) = s == "pending"
is_pending v = false

abbrev received_requests : Answer → Requests → Requests
received_requests (resolved v) q =
    if is_array v
    then record q {
      requests = elements v;
      has_new_requests = any (λ r. is_pending (get r "status")) (elements v);
    }
    else toast
        "\u{62e}\u{637}\u{627} \u{62f}\u{631} \u{62f}\u{631}\u{6cc}\u{627}\u{641}\u{62a} \u{62f}\u{627}\u{62f}\u{647}\u{200c}\u{647}\u{627}"
        q
received_requests (rejected e) q =
    toast
      "\u{62e}\u{637}\u{627} \u{62f}\u{631} \u{62f}\u{631}\u{6cc}\u{627}\u{641}\u{62a} \u{62f}\u{627}\u{62f}\u{647}\u{200c}\u{647}\u{627}"
      q

abbrev lacks_token : Option String → Bool
lacks_token none = true
lacks_token (some t) = t == ""

-- the effect on [token]; without a token the page stays at its loading
unfoldable pub fetch_requests : Axios → Storage → Requests → World → Requests × World
fetch_requests axios s q w =
    let (r, w') =
      axios (axios_get "http://localhost:8000/api/auth/coach/requests/" (bearer (panel_token s)))
        w in
    if lacks_token (stored_token s)
    then (
      toast
          "\u{62a}\u{648}\u{6a9}\u{646} \u{6cc}\u{627}\u{641}\u{62a} \u{646}\u{634}\u{62f}. \u{644}\u{637}\u{641}\u{627}ً \u{62f}\u{648}\u{628}\u{627}\u{631}\u{647} \u{648}\u{627}\u{631}\u{62f} \u{634}\u{648}\u{6cc}\u{62f}."
          q,
      w,
    )
    else (record (received_requests r q) { loading = false }, w')

abbrev pub answer_text : String → String
answer_text action = if action == "accept" then "accepted" else "rejected"

-- the requests with the answered one changed
unfoldable pub with_answer : ℕ → String → List Js → List Js
with_answer id action [] = []
with_answer id action (req ∷ reqs) =
    let rest = with_answer id action reqs in
    if eqb (id_number req) id
    then object (set_field "status" (str (answer_text action)) (entries_of req)) ∷ rest
    else req ∷ rest

abbrev pub answered_request : Answer → ℕ → String → Requests → Requests
answered_request (resolved v) id action q =
    toast
      ("\u{62f}\u{631}\u{62e}\u{648}\u{627}\u{633}\u{62a} \u{628}\u{627} \u{645}\u{648}\u{641}\u{642}\u{6cc}\u{62a} "
        <> (if action == "accept" then "\u{62a}\u{623}\u{6cc}\u{6cc}\u{62f}" else "\u{631}\u{62f}")
        <> " \u{634}\u{62f}.")
      (record q { requests = with_answer id action q.requests })
answered_request (rejected e) id action q =
    toast "\u{67e}\u{627}\u{633}\u{62e} \u{62b}\u{628}\u{62a} \u{646}\u{634}\u{62f}." q

-- the post of respond
unfoldable pub respond_request : Storage → ℕ → String → Request
respond_request s id action =
    axios_send "POST"
      ("http://localhost:8000/api/auth/coach/requests/" <> show_number id <> "/respond/")
      (bearer (panel_token s)) (object (("action", str action) ∷ []))

-- respond(id, action)
unfoldable pub respond : Axios → Storage → ℕ → String → Requests → World → Requests × World
respond axios s id action q w =
    let (r, w') = axios (respond_request s id action) w in
    (record (answered_request r id action q) { responding_id = none }, w')
