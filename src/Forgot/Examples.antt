-- ===== src/Forgot/Examples.antt =====
-- The theorem on the reset at a concrete run.
use tkd_chb.Base.{refl, some, none, [], false}
use tkd_chb.Base.Js.{obj, end}
use tkd_chb.Net.{Server, World, answered}
use tkd_chb.Forgot.{at_phone, State, handle_send_code}
use tkd_chb.Forgot.Laws.{IsGood, Reaches, done, then_moves, types_phone, sends, Reaches-IsGood}

abbrev closed : State
closed = record {
  step = at_phone;
  phone = "";
  code_typed = "";
  error = "";
  loading = false;
  result = none;
  cooldown = 0;
}

abbrev typed : State
typed = record closed { phone = "09121234567" }

abbrev quiet : World
quiet = record { storage = []; sent = [] }

abbrev sending : Server
sending sent req =
    answered (record { status = 200; status_text = "OK"; json = some (obj end); text = "{}" })

number_sent :
    Reaches sending "/send" closed quiet
      (handle_send_code sending "/send" typed quiet).0
      (handle_send_code sending "/send" typed quiet).1
number_sent = then_moves (then_moves done (types_phone "09121234567" refl)) sends

Reaches-IsGood_example : IsGood (handle_send_code sending "/send" typed quiet).0
Reaches-IsGood_example = Reaches-IsGood number_sent refl
