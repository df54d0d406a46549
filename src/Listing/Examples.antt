-- ===== src/Listing/Examples.antt =====
-- The theorem on the pages at a concrete list.
use mathlib.Core.List.{Perm}
use tkd_chb.Base.{◌≡◌, ℕ, String, Option, none, some, List, [], ◌∷◌, arith, false}
use tkd_chb.Base.Js.{Js, null, num, str, object, array, obj, field, end}
use tkd_chb.Base.Exec.{ok}
use tkd_chb.Net.{Server, World, answered}
use tkd_chb.Listing.Order.{received_matches}
use tkd_chb.Listing.Order.Laws.{NewestFirst, received_matches-NewestFirst}
use tkd_chb.Listing.Matches.{Section}
use tkd_chb.Listing.Pages.{total_pages}
use tkd_chb.Listing.Pages.Laws.{pages_from, pages_from-items}

abbrev five : List ℕ
five = 7 ∷ 8 ∷ 9 ∷ 10 ∷ 11 ∷ []

pages_from-items_example : pages_from 4 five 1 (total_pages 4 five) ≡ five
pages_from-items_example = pages_from-items 4 five (omega arith)

abbrev bout : Js
bout = obj (field "public_id" (str "k1") (field "style" (str "Kyorugi") end))

abbrev section : Section
section = record { show_terms = false; selected = null; went = [] }

abbrev no_time : String → Option ℕ
no_time t = none

abbrev numbered : ℕ → Js
numbered n = obj (field "id" (num n) end)

received_matches-NewestFirst_example :
    NewestFirst no_time (received_matches no_time [] (ok (numbered 1 ∷ numbered 2 ∷ []))).matches
    × Perm
        (received_matches no_time [] (ok (numbered 1 ∷ numbered 2 ∷ []))).matches
        (numbered 1 ∷ numbered 2 ∷ [])
received_matches-NewestFirst_example =
    received_matches-NewestFirst no_time [] (numbered 1 ∷ numbered 2 ∷ [])

abbrev server : Server
server sent req = answered (record {
  status = 201;
  status_text = "Created";
  json = some (object (("enrollment_ids", array (num 9 ∷ [])) ∷ []));
  text = "";
})

abbrev world : World
world = record { storage = ("coach_token", "t") ∷ []; sent = [] }
