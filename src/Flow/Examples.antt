-- ===== src/Flow/Examples.antt =====
-- A competition that the server lets be approved.
use tkd_chb.Base.{◌≡◌, ◌≢◌, ◌⊎◌, refl, true, [], ◌∷◌, some}
use tkd_chb.Base.Js.{Js, str, bool, object}
use tkd_chb.Base.Exec.{Failure, ok, err}
use tkd_chb.Net.{Server, World, answered}
use tkd_chb.Flow.{Flow, at_code, first_render, public_id_of, approve_of, handle_approve, bootstrap}
use tkd_chb.Flow.Laws.{
  IsShown, ready_from, then_event, approve, check, after, Reaches-IsShown, handle_approve-outcome,
}

abbrev server : Server
server sent req = answered (record {
  status = 200;
  status_text = "OK";
  json = some (object (("approved", bool true) ∷ ("code", str "77") ∷ []));
  text = "";
})

abbrev world : World
world = record { storage = ("coach_token", "t") ∷ []; sent = [] }

abbrev spring_cup : Js
spring_cup = object (("public_id", str "k1") ∷ ("style", str "kyorugi") ∷ [])

abbrev ready : Flow
ready = (bootstrap server "http://x" spring_cup first_render world).0

abbrev ready_world : World
ready_world = (bootstrap server "http://x" spring_cup first_render world).1

abbrev ticked : Flow
ticked = (after server "http://x" spring_cup (check true) ready ready_world).0

Reaches-IsShown_example : IsShown (after server "http://x" spring_cup approve ticked ready_world).0
unfolding public_id_of
Reaches-IsShown_example =
    Reaches-IsShown server "http://x" spring_cup refl
      (then_event approve (then_event (check true) ready_from))

abbrev agreed : Flow
agreed = record first_render { checked = true }

handle_approve-outcome_example :
    ((res : Js) × ((approve_of server "http://x" spring_cup world).0 ≡ ok res)
      × ((handle_approve server "http://x" spring_cup agreed world).0.step ≡ at_code)
      × ((handle_approve server "http://x" spring_cup agreed world).0.error ≡ ""))
    ⊎ ((e : Failure) × ((approve_of server "http://x" spring_cup world).0 ≡ err e)
        × ((handle_approve server "http://x" spring_cup agreed world).0.step ≡ agreed.step)
        × ((handle_approve server "http://x" spring_cup agreed world).0.code ≡ agreed.code)
        × ((handle_approve server "http://x" spring_cup agreed world).0.error ≢ ""))
unfolding public_id_of
handle_approve-outcome_example =
    handle_approve-outcome server "http://x" spring_cup agreed world refl refl
