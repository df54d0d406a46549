-- ===== src/Panel/Coaches.antt =====
-- ClubCoachesManagement.jsx: a club chooses its coaches.
pub mod Laws
use Prim.Native.String.{◌++◌ as ◌<>◌}
use tkd_chb.Base.{
  ℕ, String, Bool, true, false, Option, none, some, List, [], ◌∷◌, ◌++◌, map, leb, if◌then◌else◌,
}
use tkd_chb.Base.Js.{Js, num, array, object, truthy, get, is_array, elements, to_text}
use tkd_chb.Storage.{Storage}
use tkd_chb.Net.{World}
use tkd_chb.Axios.{Answer, resolved, rejected, Axios, bearer, axios_get, axios_send}
use tkd_chb.Panel.{panel_token, id_number, has_id, without_id, keep}

pub record Coaches : Type 0 where
  pub all_coaches : List Js
  pub selected_coaches : List ℕ
  pub modal : Option Js
  pub confirm_changes : Bool
  pub loading : Bool
  pub alerts : List String

abbrev received_coaches : Answer → Coaches → Coaches
received_coaches (resolved v) c =
    if is_array v
    then record c {
      all_coaches = elements v;
      selected_coaches = map id_number (keep (λ x. truthy (get x "is_active")) (elements v));
    }
    else c
received_coaches (rejected e) c = c

-- fetchCoaches()
unfoldable pub fetch_coaches : Axios → Storage → Coaches → World → Coaches × World
fetch_coaches axios s c w =
    let (r, w') =
      axios (axios_get "http://localhost:8000/api/auth/club/all-coaches/" (bearer (panel_token s)))
        w in
    (received_coaches r c, w')

abbrev count_of : Js → ℕ
count_of (num n) = n
count_of _ = 0

-- coach.club_count
abbrev pub club_count : Js → ℕ
club_count coach = count_of (get coach "club_count")

-- toggleCoach(coach)
unfoldable pub toggle_coach : Js → Coaches → Coaches
toggle_coach coach c =
    if has_id (id_number coach) c.selected_coaches
    then record c { modal = some coach }
    else if leb 3 (club_count coach)
    then record c {
      alerts =
          c.alerts
          ++ ("\u{645}\u{631}\u{628}\u{6cc} "
              <> to_text (get coach "full_name")
              <> " \u{62f}\u{631} ۳ \u{628}\u{627}\u{634}\u{6af}\u{627}\u{647} \u{62b}\u{628}\u{62a} \u{634}\u{62f}\u{647} \u{627}\u{633}\u{62a} \u{648} \u{627}\u{645}\u{6a9}\u{627}\u{646} \u{627}\u{646}\u{62a}\u{62e}\u{627}\u{628} \u{646}\u{62f}\u{627}\u{631}\u{62f}.")
            ∷ [];
    }
    else record c { selected_coaches = c.selected_coaches ++ id_number coach ∷ [] }

abbrev pub removed : Option Js → Coaches → Coaches
removed none c = c
removed (some coach) c = record c {
  selected_coaches = without_id (id_number coach) c.selected_coaches;
  modal = none;
}

-- handleRemoveConfirmed(), which only the open window calls
unfoldable pub handle_remove_confirmed : Coaches → Coaches
handle_remove_confirmed c = removed c.modal c

unfoldable pub cancel_remove : Coaches → Coaches
cancel_remove c = record c { modal = none }

unfoldable pub ask_submit : Coaches → Coaches
ask_submit c = record c { confirm_changes = true }

abbrev coaches_sent : Answer → Coaches → Coaches
coaches_sent (resolved v) c = record c {
  alerts =
      c.alerts
      ++ "\u{62f}\u{631}\u{62e}\u{648}\u{627}\u{633}\u{62a}\u{200c}\u{647}\u{627} \u{627}\u{631}\u{633}\u{627}\u{644} \u{634}\u{62f}\u{646}\u{62f}."
        ∷ [];
}
coaches_sent (rejected e) c = record c {
  alerts =
      c.alerts
      ++ "\u{627}\u{631}\u{633}\u{627}\u{644} \u{62f}\u{631}\u{62e}\u{648}\u{627}\u{633}\u{62a} \u{628}\u{627} \u{62e}\u{637}\u{627} \u{645}\u{648}\u{627}\u{62c}\u{647} \u{634}\u{62f}."
        ∷ [];
}

-- confirmFinalSubmit()
unfoldable pub confirm_final_submit : Axios → Storage → Coaches → World → Coaches × World
confirm_final_submit axios s c w =
    let body = object (("selected_coaches", array (map num c.selected_coaches)) ∷ []) in
    let (r, w') =
      axios
        (axios_send "POST" "http://localhost:8000/api/auth/club/update-coaches/"
          (bearer (panel_token s)) body)
        w in
    (record (coaches_sent r c) { loading = false; confirm_changes = false }, w')
