-- ===== src/Axios.antt =====
-- axios as the panels and the seminars use it. The package is a parameter: a request gives the data of
-- its response, or is rejected with the response's status and data or without a response.
use Prim.Native.String.{◌++◌ as ◌<>◌}
use tkd_chb.Base.{ℕ, String, Option, List, [], ◌∷◌}
use tkd_chb.Base.Js.{Js, undefined}
use tkd_chb.Net.{Request, World}

pub record Rejection : Type 0 where
  pub status : ℕ
  pub data_sent : Js

pub data Answer : Type 0 where
  resolved : Js → Answer
  rejected : Option Rejection → Answer

abbrev pub Axios : Type 0
Axios = Request → World → Answer × World

abbrev pub bearer : String → List (String × String)
bearer token = ("Authorization", "Bearer " <> token) ∷ []

abbrev pub axios_get : String → List (String × String) → Request
axios_get url headers = record { url = url; method = "GET"; headers = headers; body = undefined }

abbrev pub axios_send : String → String → List (String × String) → Js → Request
axios_send method url headers body = record {
  url = url;
  method = method;
  headers = headers;
  body = body;
}
