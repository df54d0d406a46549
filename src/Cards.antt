-- ===== src/Cards.antt =====
-- EnrollmentCardsBulk.jsx: the cards of the enrollments that the address names.
pub mod Laws
mod Examples
use Prim.Native.Char.{Char, code}
use tkd_chb.Base.{String, ◌==◌, Bool, List, [], ◌∷◌, ◌++◌, map, eqb, if◌then◌else◌}
use tkd_chb.Base.Text.{trim, pieces, non_empty}
use tkd_chb.Base.Js.{Js, str}
use tkd_chb.Base.Exec.{Result, ok, err}
use tkd_chb.Net.{Server, World}
use tkd_chb.Api.Endpoints.{get_enrollment_card}

abbrev pub is_comma : Char → Bool
is_comma c = eqb (code c) 44

-- idsStr.split(",").map(x => x.trim()).filter(Boolean)
unfoldable pub ids_of_query : String → List String
ids_of_query ids_str = non_empty (map trim (pieces is_comma ids_str))

abbrev pub keep_card : Result Js → List Js → List Js
keep_card (ok c) out = out ++ c ∷ []
keep_card (err e) out = out

-- for (const id of ids) { try { out.push(await getEnrollmentCard(id)) } catch {} }
unfoldable pub cards_from : Server → String → List String → List Js → World → List Js × World
cards_from server base [] out w = (out, w)
cards_from server base (id ∷ ids) out w =
    let (r, w') = get_enrollment_card server base (str id) w in
    cards_from server base ids (keep_card r out) w'

-- the effect on [idsStr]: the cards that it sets
unfoldable pub load_cards : Server → String → String → World → List Js × World
load_cards server base ids_str w = cards_from server base (ids_of_query ids_str) [] w
