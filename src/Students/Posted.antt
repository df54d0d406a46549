-- ===== src/Students/Posted.antt =====
-- CoachRegisterStudents.jsx: what a submission of the table posts.
use Prim.Native.String.{◌++◌ as ◌<>◌}
use tkd_chb.Base.{◌≡◌, String, List, [], ◌∷◌, ◌++◌}
use tkd_chb.Base.Js.{Js, str, get, elements, to_text}
use tkd_chb.Net.{Request, Server, World}
use tkd_chb.Api.Shapes.{encoded}
use tkd_chb.Students.Ids.{number_of}
use tkd_chb.Students.{Rows, row_of, row_or_blank}
use tkd_chb.Students.Submit.{number_js}

-- An entry of the posted list: the id of a student as a number, and the texts of the row.
pub record IsEntry (seen : Rows) (id s : Js) : Type 0 where
  player : get s "player_id" ≡ number_js (number_of id)
  weight : get s "declared_weight" ≡ str (row_or_blank (row_of seen (to_text id))).weight
  insurance : get s "insurance_number" ≡ str (row_or_blank (row_of seen (to_text id))).ins
  issued : get s "insurance_issue_date" ≡ str (row_or_blank (row_of seen (to_text id))).ins_date

-- The entries of a list of students, one for each, in their order.
pub data AreEntries (seen : Rows) : List Js → List Js → Type 0 where
  no_entry : AreEntries seen [] []
  an_entry :
      {id s : Js} {ids ss : List Js}
      → IsEntry seen id s
      → AreEntries seen ids ss
      → AreEntries seen (id ∷ ids) (s ∷ ss)

-- One request more, which posts the entries of the students with the token.
pub record Posts (target token : String) (seen : Rows) (ids : List Js) (w w' : World) : Type 0 where
  request : Request
  sent : w'.sent ≡ w.sent ++ request ∷ []
  storage : w'.storage ≡ w.storage
  goes : request.url ≡ target
  method : request.method ≡ "POST"
  bearer :
      request.headers
      ≡ ("Accept", "application/json")
        ∷ ("Content-Type", "application/json")
        ∷ ("Authorization", "Bearer " <> token)
        ∷ []
  listed : AreEntries seen ids (elements (get request.body "students"))

module _ (server : Server) (base : String) (slug : Js) (token : String) where
  abbrev pub posted_to : String
  posted_to =
      (base <> "/api/competitions/auth/kyorugi")
      <> "/"
      <> encoded slug
      <> "/coach/register/students/"
