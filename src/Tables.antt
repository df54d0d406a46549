-- ===== src/Tables.antt =====
-- The tables of the panel with their filters: StudentsTable.jsx, HeyatCoachesTable.jsx,
-- HeyatRefereesTable.jsx and HeyatClubsTable.jsx, and the list of SeminarsSection.jsx. One record holds
-- the filters of all the tables; a table leaves those unused that it has no input for. `Get` is
-- axios.get with headers and params.
pub mod Laws
mod Examples
use Prim.Native.String.{◌++◌ as ◌<>◌}
use tkd_chb.Base.{
  String, ◌==◌, Bool, true, false, not, ◌&&◌, ◌||◌, Option, none, some, List, [], ◌∷◌, map, every,
  if◌then◌else◌,
}
use tkd_chb.Base.Text.{to_lower_case}
use tkd_chb.Base.Js.{Js, str, array, is_array, elements, or_else, get}
use tkd_chb.Net.{World}
use tkd_chb.Storage.{Storage, get_item}
use tkd_chb.Axios.{Answer, resolved, rejected, Axios, axios_get, bearer}

abbrev pub Get : Type 0
Get = String → List (String × String) → List (String × String) → World → Answer × World

pub record Filters : Type 0 where
  pub coach : String
  pub club : String
  pub belt : String
  pub national_level : String
  pub international_level : String
  pub referee_field : String
  pub birth_from : String
  pub birth_to : String
  pub search : String

abbrev pub all_text : String
all_text = "\u{647}\u{645}\u{647}"

-- the filters as the pages start
abbrev pub no_filters : Filters
no_filters = record {
  coach = all_text;
  club = all_text;
  belt = all_text;
  national_level = all_text;
  international_level = all_text;
  referee_field = all_text;
  birth_from = "";
  birth_to = "";
  search = "";
}

abbrev pub Params : Type 0
Params = List (String × String)

-- if (value !== all) params[key] = value
abbrev pub chosen : String → String → Params → Params
chosen k v ps = if v == all_text then ps else (k, v) ∷ ps

-- if (value) params[key] = value
abbrev pub filled : String → String → Params → Params
filled k v ps = if v == "" then ps else (k, v) ∷ ps

abbrev pub typed_params : Filters → Params
typed_params f =
    filled "birth_from" f.birth_from (filled "birth_to" f.birth_to (filled "search" f.search []))

abbrev pub is_coach_role : String → Bool
is_coach_role role = role == "coach" || role == "both"

-- params of fetchData in StudentsTable.jsx
unfoldable pub students_params : String → Filters → Params
students_params role f =
    let common = chosen "belt" f.belt (typed_params f) in
    if role == "heyat"
    then chosen "coach" f.coach (chosen "club" f.club common)
    else if role == "club"
    then chosen "coach" f.coach common
    else if is_coach_role role
    then chosen "club" f.coach common
    else common

-- params of fetchCoaches in HeyatCoachesTable.jsx
unfoldable pub coaches_params : Filters → Params
coaches_params f = chosen "club" f.club (
    chosen "belt" f.belt (
      chosen "national_level" f.national_level
        (chosen "international_level" f.international_level (typed_params f))))

-- params of fetchReferees in HeyatRefereesTable.jsx
unfoldable pub referees_params : Filters → Params
referees_params f = chosen "belt" f.belt (
    chosen "national_level" f.national_level (
      chosen "international_level" f.international_level
        (chosen "referee_field" f.referee_field (typed_params f))))

abbrev template_text : Option String → String
template_text none = "null"
template_text (some s) = s

abbrev role_text : Storage → String
role_text s = template_text (get_item s "user_role")

-- the token of StudentsTable.jsx
abbrev role_token : Storage → String
role_token s = template_text (get_item s (role_text s <> "_token"))

unfoldable pub students_url : String → String
students_url role =
    if role == "club"
    then "http://localhost:8000/api/auth/club/students/"
    else if is_coach_role role
    then "http://localhost:8000/api/auth/coach/students/"
    else "http://localhost:8000/api/auth/heyat/students/"

abbrev students_received : Answer → Js → Js
students_received (resolved v) rows = or_else v (array [])
students_received (rejected e) rows = rows

-- fetchData() of StudentsTable.jsx, which runs 400 ms after the last change of a filter
unfoldable pub fetch_students : Get → Filters → Js → World → Js × World
fetch_students get_with f rows w =
    let role = role_text w.storage in
    let (r, w') =
      get_with (students_url role) (bearer (role_token w.storage)) (students_params role f) w in
    (students_received r rows, w')

pub record Choices : Type 0 where
  pub coaches : List Js
  pub clubs : List Js

unfoldable pub options_url : String → String
options_url role =
    if role == "club"
    then "http://localhost:8000/api/auth/club/coaches/"
    else if is_coach_role role
    then "http://localhost:8000/api/auth/coach/clubs/"
    else if role == "heyat"
    then "http://localhost:8000/api/auth/heyat/form-data/"
    else ""

-- the names after the choice of all
abbrev after_all : String → Js → List Js
after_all k v = str all_text ∷ map (λ c. get c k) (elements v)

-- what is no list has no `map`: the options stay
unfoldable pub options_received : String → Answer → Choices → Choices
options_received role (rejected e) c = c
options_received role (resolved v) c =
    if role == "heyat"
    then if is_array (get v "coaches") && is_array (get v "clubs")
      then record {
        coaches = after_all "name" (get v "coaches");
        clubs = after_all "club_name" (get v "clubs");
      }
      else c
    else if is_array v
    then record {
      coaches = after_all (if role == "club" then "name" else "club_name") v;
      clubs = [];
    }
    else c

-- fetchOptions() of StudentsTable.jsx
unfoldable pub fetch_options : Axios → Choices → World → Choices × World
fetch_options axios c w =
    let role = role_text w.storage in
    let (r, w') = axios (axios_get (options_url role) (bearer (role_token w.storage))) w in
    (options_received role r c, w')

abbrev rows_received : Answer → Js → Js
rows_received (resolved v) rows = v
rows_received (rejected e) rows = rows

abbrev heyat_token : Storage → Option String
heyat_token s = get_item s "heyat_token"

-- fetchCoaches() of HeyatCoachesTable.jsx
unfoldable pub fetch_coaches : Get → Filters → Js → World → Js × World
fetch_coaches get_with f rows w =
    let (r, w') =
      get_with "http://localhost:8000/api/auth/heyat/coaches/"
        (bearer (template_text (heyat_token w.storage))) (coaches_params f) w in
    (rows_received r rows, w')

-- fetchReferees() of HeyatRefereesTable.jsx
unfoldable pub fetch_referees : Get → Filters → Js → World → Js × World
fetch_referees get_with f rows w =
    let (r, w') =
      get_with "http://localhost:8000/api/auth/heyat/referees/"
        (bearer (template_text (heyat_token w.storage))) (referees_params f) w in
    (rows_received r rows, w')

pub record ClubsTable : Type 0 where
  pub clubs : Js
  pub error : String

abbrev clubs_listed : Answer → ClubsTable → ClubsTable
clubs_listed (resolved v) t = record { clubs = v; error = "" }
clubs_listed (rejected e) t = record t {
  error =
      "\u{62e}\u{637}\u{627} \u{62f}\u{631} \u{62f}\u{631}\u{6cc}\u{627}\u{641}\u{62a} \u{644}\u{6cc}\u{633}\u{62a} \u{628}\u{627}\u{634}\u{6af}\u{627}\u{647}\u{200c}\u{647}\u{627}";
}

abbrev token_or_empty : Option String → String
token_or_empty none = ""
token_or_empty (some s) = s

-- fetchClubs() of HeyatClubsTable.jsx; an error that is null is empty
unfoldable pub fetch_clubs : Get → String → ClubsTable → World → ClubsTable × World
fetch_clubs get_with search t w =
    let token = token_or_empty (heyat_token w.storage) in
    let (r, w') =
      get_with "http://localhost:8000/api/auth/heyat/clubs/" (bearer token)
        (filled "search" search []) w in
    if token == ""
    then (
      record t {
        error =
            "\u{62a}\u{648}\u{6a9}\u{646} \u{6cc}\u{627}\u{641}\u{62a} \u{646}\u{634}\u{62f}. \u{644}\u{637}\u{641}\u{627}ً \u{648}\u{627}\u{631}\u{62f} \u{634}\u{648}\u{6cc}\u{62f}.";
      },
      w,
    )
    else (clubs_listed r t, w')

-- how the load of the seminars ends; a later load cancels an earlier one
pub data Ending : Type 0 where
  gives : Js → Ending
  fails canceled : Ending

pub record Seminars : Type 0 where
  pub shown : Js
  pub loading : Bool
  pub error : String

-- safeRole of SeminarsSection.jsx
unfoldable pub safe_role : String → Storage → String
safe_role role s =
    let stored = token_or_empty (get_item s "user_role") in
    to_lower_case
      (if not (role == "") then role else if not (stored == "") then stored else "player")

abbrev pub load_starts : Seminars → Seminars
load_starts s = record s { loading = true; error = "" }

-- the end of load(signal)
unfoldable pub load_ends : Ending → Seminars → Seminars
load_ends (gives v) s = record s { shown = if is_array v then v else array []; loading = false }
load_ends fails s = record s {
  error =
      "\u{62e}\u{637}\u{627} \u{62f}\u{631} \u{62f}\u{631}\u{6cc}\u{627}\u{641}\u{62a} \u{644}\u{6cc}\u{633}\u{62a} \u{633}\u{645}\u{6cc}\u{646}\u{627}\u{631}\u{647}\u{627}";
  loading = false;
}
load_ends canceled s = record s { loading = false }
