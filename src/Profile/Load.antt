-- ===== src/Profile/Load.antt =====
-- PersonalInfoForm.jsx: the loading of the profile and of the options.
use Prim.Native.String.{◌++◌ as ◌<>◌}
use tkd_chb.Base.{
  ℕ, zero, suc, String, ◌==◌, Bool, true, false, not, ◌||◌, Option, none, some, List, [], ◌∷◌, map,
  every, if◌then◌else◌,
}
use tkd_chb.Base.Js.{
  Js, undefined, obj, array, is_array, elements, or_else, is_nullish, get, entries, to_text,
}
use tkd_chb.Net.{World}
use tkd_chb.Storage.{Storage, get_item}
use tkd_chb.Axios.{Answer, resolved, rejected, Axios, axios_get, bearer}
use tkd_chb.Register.{js, Form, set_entry}
use tkd_chb.Profile.{
  Provinces, Item, named_item, Dropdowns, Info, keyed, or_empty, counties_of, cities_of,
}

unfoldable pub as_form : List (String × Js) → Form
as_form [] = []
as_form ((k, v) ∷ es) = (k, js v) ∷ as_form es

abbrev pub fields_of : Js → List (String × Js)
fields_of (obj fs) = entries fs
fields_of _ = []

-- res.data.profile, with `selectedClubs`
unfoldable pub profile_form : Js → Form
profile_form profile =
    set_entry "selectedClubs" (js (or_else (get profile "coaching_clubs") (array [])))
      (as_form (fields_of profile))

abbrev nth : ℕ → List Js → Js
nth n [] = undefined
nth zero (v ∷ vs) = v
nth (suc n) (v ∷ vs) = nth n vs

-- a choice of the server is a pair of a value and a label
abbrev pair_item : Js → Item
pair_item v = record { value = nth 0 (elements v); label = nth 1 (elements v) }

-- setDropdowns
unfoldable pub dropdowns_of : Js → Dropdowns
dropdowns_of options =
    ("tkd_board", map (named_item "name") (elements (get options "heyats")))
    ∷ ("club", map (named_item "club_name") (elements (get options "clubs")))
    ∷ ("coach", map (named_item "full_name") (elements (get options "coaches")))
    ∷ ("belt_grade", map pair_item (elements (get options "belt_choices")))
    ∷ ("degree", map pair_item (elements (get options "degree_choices")))
    ∷ []

-- where one of the lists is missing, `map` throws
abbrev has_options : Js → Bool
has_options options =
    every (λ k. is_array (get options k))
      ("heyats" ∷ "clubs" ∷ "coaches" ∷ "belt_choices" ∷ "degree_choices" ∷ [])

abbrev is_known {ℓ} : {A : Type ℓ} → Option A → Bool
is_known none = false
is_known (some v) = true

abbrev place_lists : Provinces → String → String → Info → Info
place_lists table province county p =
    if not (is_known (keyed table province))
    then p
    else if is_known (keyed (or_empty (keyed table province)) county)
    then record p {
      counties = counties_of table province;
      cities = cities_of table province county;
    }
    else record p { counties = counties_of table province }

-- the reply to the request of the profile, with whether the page goes home
unfoldable pub received_profile : Provinces → Answer → Info → Info × Bool
received_profile table (rejected e) p = (p, true)
received_profile table (resolved v) p =
    let profile = get v "profile" in
    let options = get v "form_options" in
    let form = profile_form profile in
    let shown = record p { person = form; original = form; loaded = true } in
    if is_nullish profile then (p, true) else if not (has_options options) then (shown, true) else (
      place_lists table (to_text (get profile "province")) (to_text (get profile "county"))
          (record shown { dropdowns = dropdowns_of options }),
      false,
    )

-- localStorage.getItem(k), with "null" in a template for an item that is missing
abbrev item_text : Option String → String
item_text none = "null"
item_text (some s) = s

abbrev pub profile_role : Storage → Option String
profile_role s = get_item s "user_role"

abbrev pub own_token : Storage → Option String
own_token s = get_item s (item_text (profile_role s) <> "_token")

abbrev is_filled : Option String → Bool
is_filled none = false
is_filled (some s) = not (s == "")

-- the effect, with whether the page goes home
unfoldable pub load_profile : Axios → Provinces → Info → World → Info × Bool × World
load_profile axios table p w =
    let (r, w') =
      axios
        (axios_get "http://localhost:8000/api/auth/user-profile-with-options/"
          (bearer (item_text (own_token w.storage))))
        w in
    let (q, home) = received_profile table r p in
    if not (is_filled (profile_role w.storage)) || not (is_filled (own_token w.storage))
    then (p, true, w)
    else (record q { loading = false }, home, w')
