-- ===== src/Panel/Clubs.antt =====
-- ChangeCoachClubs.jsx: a coach chooses up to three clubs.
pub mod Laws
use tkd_chb.Base.{
  ℕ, String, Bool, true, false, not, ◌&&◌, List, [], ◌∷◌, ◌++◌, map, length, ltb, if◌then◌else◌,
}
use tkd_chb.Base.Js.{Js, undefined, num, array, object, is_array, elements}
use tkd_chb.Storage.{Storage}
use tkd_chb.Net.{World}
use tkd_chb.Axios.{Answer, resolved, rejected, Axios, bearer, axios_get, axios_send}
use tkd_chb.Panel.{panel_token, id_number, has_id, without_id, keep}

pub record Choice : Type 0 where
  pub all_clubs : List Js
  pub selected_clubs : List ℕ
  pub loading : Bool
  pub alerts : List String

abbrev pub max_selection : ℕ
max_selection = 3

-- the clubs of the coach first
unfoldable pub clubs_sorted : List ℕ → List Js → List Js
clubs_sorted mine all =
    keep (λ club. has_id (id_number club) mine) all
    ++ keep (λ club. not (has_id (id_number club) mine)) all

abbrev pub received_clubs : Answer → Answer → Choice → Choice
received_clubs (resolved all) (resolved mine) c =
    let ids = map id_number (elements mine) in
    if is_array mine && is_array all
    then record c { all_clubs = clubs_sorted ids (elements all); selected_clubs = ids }
    else c
received_clubs _ _ c = c

-- fetchData(): both requests go out
unfoldable pub fetch_data : Axios → Storage → Choice → World → Choice × World
fetch_data axios s c w =
    let token = panel_token s in
    let (all, w1) =
      axios (axios_get "http://localhost:8000/api/auth/all-clubs/" (bearer token)) w in
    let (mine, w2) =
      axios (axios_get "http://localhost:8000/api/auth/coach/clubs/" (bearer token)) w1 in
    (received_clubs all mine c, w2)

abbrev alert : String → Choice → Choice
alert text c = record c { alerts = c.alerts ++ text ∷ [] }

-- toggleClub(clubId)
unfoldable pub toggle_club : ℕ → Choice → Choice
toggle_club club_id c =
    if has_id club_id c.selected_clubs
    then record c { selected_clubs = without_id club_id c.selected_clubs }
    else if ltb (length c.selected_clubs) max_selection
    then record c { selected_clubs = c.selected_clubs ++ club_id ∷ [] }
    else alert
        "\u{62d}\u{62f}\u{627}\u{6a9}\u{62b}\u{631} ۳ \u{628}\u{627}\u{634}\u{6af}\u{627}\u{647} \u{631}\u{627} \u{645}\u{6cc}\u{200c}\u{62a}\u{648}\u{627}\u{646}\u{6cc}\u{62f} \u{627}\u{646}\u{62a}\u{62e}\u{627}\u{628} \u{6a9}\u{646}\u{6cc}\u{62f}."
        c

abbrev clubs_saved : Answer → Choice → Choice
clubs_saved (resolved v) c =
    alert
      "\u{628}\u{627}\u{634}\u{6af}\u{627}\u{647}\u{200c}\u{647}\u{627} \u{628}\u{627} \u{645}\u{648}\u{641}\u{642}\u{6cc}\u{62a} \u{628}\u{647}\u{200c}\u{631}\u{648}\u{632}\u{631}\u{633}\u{627}\u{646}\u{6cc} \u{634}\u{62f}\u{646}\u{62f}."
      c
clubs_saved (rejected e) c =
    alert
      "\u{62e}\u{637}\u{627} \u{62f}\u{631} \u{630}\u{62e}\u{6cc}\u{631}\u{647} \u{628}\u{627}\u{634}\u{6af}\u{627}\u{647}\u{200c}\u{647}\u{627}"
      c

-- handleSubmit()
unfoldable pub save_clubs : Axios → Storage → Choice → World → Choice × World
save_clubs axios s c w =
    let body = object (("coaching_clubs", array (map num c.selected_clubs)) ∷ []) in
    let (r, w') =
      axios
        (axios_send "PATCH" "http://localhost:8000/api/auth/coach/update-clubs/"
          (bearer (panel_token s)) body)
        w in
    (record (clubs_saved r c) { loading = false }, w')
