-- ===== src/Results.antt =====
-- CompetitionResults.jsx: the results of a competition, loaded beside the competition itself, and the
-- search in them. The page stays open while a request is on its way.
pub mod Laws
use Prim.Native.String.{◌++◌ as ◌<>◌}
use tkd_chb.Base.{String, ◌==◌, Bool, true, false, not, ◌||◌, List, [], ◌∷◌, ◌++◌, if◌then◌else◌}
use tkd_chb.Base.Text.{trim, includes, to_lower_case, encode_uri_component}
use text.Mathlib.Text.{starts_with}
use tkd_chb.Base.Js.{Js, null, str, truthy, or_else, get, is_array, elements, to_text, join_items}
use tkd_chb.Base.Exec.{Result, ok, err}
use tkd_chb.Net.{Server, World}
use tkd_chb.Api.Shapes.{Results}
use tkd_chb.Api.Endpoints.{get_competition_detail, get_competition_results}
use tkd_chb.Details.Submit.{message_or}
use tkd_chb.Panel.{keep}

-- absUrl(u), with `null` for none
unfoldable pub abs_url : String → Js → Js
abs_url base u =
    if truthy u
    then (if starts_with "http" (to_text u) then u else str (base <> to_text u))
    else null

abbrev text_or_blank : Js → String
text_or_blank v = to_text (or_else v (str ""))

-- v.player?.full_name || `${first} ${last}`.trim()
abbrev name_of_player : Js → Js
name_of_player p =
    or_else (get p "full_name")
      (str (trim (text_or_blank (get p "first_name") <> " " <> text_or_blank (get p "last_name"))))

abbrev pub entry_player : Js → Js
entry_player v =
    or_else (get v "player_name")
      (or_else (get v "player") (or_else (get v "full_name") (name_of_player (get v "player"))))

abbrev pub entry_club : Js → Js
entry_club v = or_else (get v "club_name") (
    or_else (get v "club") (
      or_else (get v "club_title")
        (or_else (get (get v "club") "club_name") (get (get v "club") "name"))))

abbrev pub entry_label : Js → Js
entry_label v =
    or_else
      (or_else (get v "label")
        (str (join_items " — " (keep truthy (entry_player v ∷ entry_club v ∷ [])))))
      (str "—")

-- showEntry(v)
unfoldable pub show_entry : Js → Js
show_entry (str s) = if s == "" then str "—" else str s
show_entry v = if truthy v then entry_label v else str "—"

pub record Meta : Type 0 where
  pub loading : Bool
  pub error : String
  pub competition : Js

pub record Table : Type 0 where
  pub loading : Bool
  pub error : String
  pub rows : List Js

unfoldable pub received_meta : Result Js → Meta
received_meta (ok d) = record { loading = false; error = ""; competition = d }
received_meta (err e) = record {
  loading = false;
  error =
      message_or e
        "\u{62e}\u{637}\u{627} \u{62f}\u{631} \u{62f}\u{631}\u{6cc}\u{627}\u{641}\u{62a} \u{645}\u{633}\u{627}\u{628}\u{642}\u{647}";
  competition = null;
}

-- the first effect on [slug]
unfoldable pub load_meta : Server → String → Js → World → Meta × World
load_meta server base slug w =
    let (r, w') = get_competition_detail server base slug w in (received_meta r, w')

-- the client gives its rows in `results`, always an array
unfoldable pub received_rows : Result Results → Table
received_rows (ok d) = record { loading = false; error = ""; rows = d.results }
received_rows (err e) = record {
  loading = false;
  error =
      message_or e
        "\u{62e}\u{637}\u{627} \u{62f}\u{631} \u{62f}\u{631}\u{6cc}\u{627}\u{641}\u{62a} \u{646}\u{62a}\u{627}\u{6cc}\u{62c}";
  rows = [];
}

-- the second effect on [slug]
unfoldable pub load_rows : Server → String → Js → World → Table × World
load_rows server base slug w =
    let (r, w') = get_competition_results server base slug w in (received_rows r, w')

-- poster
unfoldable pub poster : String → Meta → Js
poster base m = or_else (abs_url base (get m.competition "poster")) (str "/placeholder.jpg")

-- contains(s), for the trimmed query
abbrev pub contains : String → Js → Bool
contains q s = includes (to_lower_case (text_or_blank s)) (to_lower_case q)

unfoldable pub row_matches : String → Js → Bool
row_matches q r =
    contains q (or_else (get r "weight") (get r "weight_name"))
    || contains q (show_entry (or_else (get r "gold") (get r "gold_enrollment")))
    || contains q (show_entry (or_else (get r "silver") (get r "silver_enrollment")))
    || contains q
        (show_entry (or_else (get r "bronze1") (or_else (get r "bronze1_enrollment") (get r "b1"))))
    || contains q
        (show_entry (or_else (get r "bronze2") (or_else (get r "bronze2_enrollment") (get r "b2"))))

-- filtered
unfoldable pub filtered : String → List Js → List Js
filtered query rows = if trim query == "" then rows else keep (row_matches (trim query)) rows

-- goBack()
unfoldable pub go_back : String → String → List String → List String
go_back role slug went =
    went
    ++ ("/dashboard/" <> encode_uri_component role <> "/competitions/" <> encode_uri_component slug)
      ∷ []
