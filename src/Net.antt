-- ===== src/Net.antt =====
-- What the program sees of the network and of the browser: requests, responses, and a world that
-- holds the localStorage and the requests sent so far. The server is a parameter: what it answers
-- may depend on every request before.
use tkd_chb.Base.{String, Bool, ◌&&◌, leb, Option, List, [], ◌∷◌, ◌++◌, ℕ}
use tkd_chb.Base.Js.{Js}
use tkd_chb.Base.Exec.{Exec, Result, ok, err, error}
use tkd_chb.Storage.{Storage}

pub record Request : Type 0 where
  pub url : String
  pub method : String
  pub headers : List (String × String)
  pub body : Js

-- `json` is none where the body is no JSON
pub record Response : Type 0 where
  pub status : ℕ
  pub status_text : String
  pub json : Option Js
  pub text : String

-- A fetch rejects where the network fails.
pub data Reply : Type 0 where
  refused : String → Reply
  answered : Response → Reply

abbrev pub Server : Type 0
Server = List Request → Request → Reply

pub record World : Type 0 where
  pub storage : Storage
  pub sent : List Request

-- res.ok
abbrev pub is_ok : ℕ → Bool
is_ok status = leb 200 status && leb status 299

abbrev pub received : Reply → Result Response
received (refused m) = err (error m)
received (answered r) = ok r

-- fetch(url, opts)
abbrev pub fetch : Server → Request → Exec World Response
fetch server req w = (received (server w.sent req), record w { sent = w.sent ++ req ∷ [] })

-- res.json()
abbrev pub json_of : Response → Option Js
json_of r = r.json
