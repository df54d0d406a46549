-- ===== src/Panel/Requests/Laws.antt =====
-- What an answer of a coach changes.
use tkd_chb.Base.{
  ◌≡◌, refl, ap, ℕ, String, ◌==◌, List, [], ◌∷◌, map, eqb, if◌then◌else◌, Bool-cases, inl, inr,
  none,
}
use tkd_chb.Base.Js.{Js, str, get, lookup, entries, of_entries}
use tkd_chb.Axios.{Answer, resolved, rejected, Axios}
use tkd_chb.Storage.{Storage}
use tkd_chb.Net.{World}
use tkd_chb.Details.Locked.{set_field, entries_of}
use tkd_chb.Panel.{id_number}
use tkd_chb.Panel.Requests.{
  Requests, answer_text, with_answer, answered_request, respond_request, respond,
}

-- the status that a request has after its answer
abbrev pub status_after : ℕ → String → Js → Js
status_after id action req =
    if eqb (id_number req) id then str (answer_text action) else get req "status"

entries-of_entries : (es : List (String × Js)) → entries (of_entries es) ≡ es
entries-of_entries [] = refl
entries-of_entries ((k, v) ∷ es) = ap (λ t. (k, v) ∷ t) (entries-of_entries es)

lookup-set_field :
    (es : List (String × Js)) (v : Js) → lookup (set_field "status" v es) "status" ≡ v
unfolding set_field
lookup-set_field [] v = refl
lookup-set_field ((j, w) ∷ es) v = elim (Bool-cases (j == "status")) [
  | inl same ↦ rw same (rw same refl)
  | inr other ↦ rw other (rw other (lookup-set_field es v))
]

with_answer-status :
    (id : ℕ) (action : String) (reqs : List Js)
    → map (λ r. get r "status") (with_answer id action reqs) ≡ map (status_after id action) reqs
unfolding with_answer
with_answer-status id action [] = refl
with_answer-status id action (req ∷ reqs) = elim (Bool-cases (eqb (id_number req) id)) [
  | inl same ↦ rw same (
      rw (entries-of_entries (set_field "status" (str (answer_text action)) (entries_of req))) (
        rw (lookup-set_field (entries_of req) (str (answer_text action)))
          (ap (λ t. str (answer_text action) ∷ t) (with_answer-status id action reqs))))
  | inr other ↦ rw other (ap (λ t. get req "status" ∷ t) (with_answer-status id action reqs))
]

-- What an answer of the network makes of the requests.
abbrev pub Shows : ℕ → String → Answer → List Js → List Js → Type 0
Shows id action (resolved v) before after =
    map (λ r. get r "status") after ≡ map (status_after id action) before
Shows id action (rejected e) before after = after ≡ before

-- One post goes out. Where the server takes the answer, it sets the status of the request with that
-- id and of no other; where it does not, no request changes; and the page then waits for none.
pub respond-Shows :
    (axios : Axios) (s : Storage) (id : ℕ) (action : String) (q : Requests) (w : World)
    → Shows id action
        (axios (respond_request s id action) w).0
        q.requests
        (respond axios s id action q w).0.requests
      × ((respond axios s id action q w).1 ≡ (axios (respond_request s id action) w).1)
      × ((respond axios s id action q w).0.responding_id ≡ none)
unfolding respond
respond-Shows axios s id action q w = (requests_after _, refl, refl)
  where
    requests_after :
        (r : Answer) → Shows id action r q.requests (answered_request r id action q).requests
    requests_after (resolved v) = with_answer-status id action q.requests
    requests_after (rejected e) = refl
