-- ===== src/Profile.antt =====
-- PersonalInfoForm.jsx: the form in which a person edits the own profile. The table of the provinces
-- and the calls of axios are parameters. What the form holds of arrays comes from one reply and is
-- never changed, so that two of them are the same where they are alike.
pub mod Load
pub mod Submit
pub mod Laws
mod Examples
use Prim.Native.String.{◌++◌ as ◌<>◌}
use tkd_chb.Base.{
  ℕ, zero, suc, ◌*◌, String, ◌==◌, Bool, true, false, not, ◌&&◌, ◌||◌, Option, none, some, List, [],
  ◌∷◌, ◌++◌, map, any, every, ltb, eqb, if◌then◌else◌,
}
use tkd_chb.Base.Text.{join}
use tkd_chb.Base.Js.{
  Js, Items, Fields, undefined, null, bool, nan, num, str, arr, obj, nil, item, end, field, array,
  is_array, elements, truthy, or_else, is_nullish, get, lookup, entries, to_text,
}
use tkd_chb.Net.{World}
use tkd_chb.Storage.{Storage, get_item}
use tkd_chb.Axios.{Answer, resolved, rejected, Axios, axios_get, bearer}
use tkd_chb.Register.{Entry, js, file, Form, field_of, set_entry, is_given, text, has}
use tkd_chb.Register.Place.{jpg_types}
use tkd_chb.Register.Coach.{value_in, parse_int}

abbrev pub Provinces : Type 0
Provinces = List (String × List (String × List String))

-- an option of a dropdown
pub record Item : Type 0 where
  pub value : Js
  pub label : Js

abbrev pub Dropdowns : Type 0
Dropdowns = List (String × List Item)

pub record Info : Type 0 where
  pub person : Form
  pub original : Form
  pub loaded : Bool
  pub dropdowns : Dropdowns
  pub editable_fields : List String
  pub pending_edit_field : Option String
  pub loading : Bool
  pub modal_message : String
  pub show_confirm_modal : Bool
  pub is_submitting : Bool
  pub counties : List String
  pub cities : List String
  pub reloads : Bool

-- the states as the page starts
abbrev pub initial_info : Info
initial_info = record {
  person = [];
  original = [];
  loaded = false;
  dropdowns = [];
  editable_fields = [];
  pending_edit_field = none;
  loading = true;
  modal_message = "";
  show_confirm_modal = false;
  is_submitting = false;
  counties = [];
  cities = [];
  reloads = false;
}

abbrev pub keyed {ℓ} : {A : Type ℓ} → List (String × A) → String → Option A
keyed [] k = none
keyed ((j, v) ∷ es) k = if j == k then some v else keyed es k

abbrev pub or_empty {ℓ} : {A : Type ℓ} → Option (List A) → List A
or_empty none = []
or_empty (some vs) = vs

abbrev pub keys_of {ℓ} : {A : Type ℓ} → List (String × A) → List String
keys_of es = map (λ e. e.0) es

-- Object.keys(provincesData[p] || {})
unfoldable pub counties_of : Provinces → String → List String
counties_of table p = keys_of (or_empty (keyed table p))

-- provincesData[p]?.[c] || []
unfoldable pub cities_of : Provinces → String → String → List String
cities_of table p c = or_empty (keyed (or_empty (keyed table p)) c)

abbrev pub referee_kinds : List String
referee_kinds = "kyorogi" ∷ "poomseh" ∷ "hanmadang" ∷ []

-- the errors of validateRefereeLevels
unfoldable pub level_errors : Form → List String → List String
level_errors d [] = []
level_errors d (type ∷ types) =
    let rest = level_errors d types in
    if is_given (field_of d type) && not (is_given (field_of d (type <> "_level")))
    then ("\u{62f}\u{631}\u{62c}\u{647} \u{645}\u{644}\u{6cc} \u{62f}\u{627}\u{648}\u{631}\u{6cc} «"
        <> type <> "» \u{627}\u{644}\u{632}\u{627}\u{645}\u{6cc} \u{627}\u{633}\u{62a}.")
      ∷ rest
    else rest

abbrev pub with_message : List String → Info → Info × Bool
with_message [] p = (p, true)
with_message (e ∷ es) p = (record p { modal_message = join "\n" (e ∷ es) }, false)

-- validateRefereeLevels()
unfoldable pub validate_referee_levels : Info → Info × Bool
validate_referee_levels p =
    if not (is_given (field_of p.person "is_referee"))
    then (p, true)
    else with_message (level_errors p.person referee_kinds) p

abbrev pub named_item : String → Js → Item
named_item name v = record { value = get v "id"; label = get v name }

-- handleEditConfirm(field)
unfoldable pub handle_edit_confirm : String → Info → Info
handle_edit_confirm name p = record p {
  editable_fields = name ∷ p.editable_fields;
  pending_edit_field = none;
}

abbrev set_dropdown : String → List Item → Dropdowns → Dropdowns
set_dropdown k items [] = (k, items) ∷ []
set_dropdown k items ((j, old) ∷ ds) =
    let rest = set_dropdown k items ds in if j == k then (j, items) ∷ ds else (j, old) ∷ rest

abbrev coach_items : Answer → List Item
coach_items (resolved v) = map (named_item "full_name") (elements (get v "coaches"))
coach_items (rejected e) = []

-- axios.get(url, { params })
abbrev pub GetWith : Type 0
GetWith = String → List (String × Js) → World → Answer × World

abbrev pub put_field : String → Js → Info → Info
put_field k v p = record p { person = set_entry k (js v) p.person }

-- handleChange(field, value)
unfoldable pub handle_change_info : GetWith → Provinces → String → Js → Info → World → Info × World
handle_change_info get_with table name v p w =
    let changed = put_field name v p in
    let (r, w') =
      get_with "http://localhost:8000/api/auth/coaches/"
        (("club", parse_int (to_text v)) ∷ ("gender", value_in (field_of p.person "gender")) ∷ [])
        w in
    let cleared = put_field "coach" (str "") changed in
    if name == "province"
    then (
      put_field "city" (str "") (
          put_field "county" (str "")
            (record changed { counties = counties_of table (to_text v); cities = [] })),
      w,
    )
    else if name == "county"
    then (
      put_field "city" (str "") (record changed {
        cities = cities_of table (to_text (value_in (field_of p.person "province"))) (to_text v);
      }),
      w,
    )
    else if name == "club"
    then (record cleared { dropdowns = set_dropdown "coach" (coach_items r) cleared.dropdowns }, w')
    else (changed, w)

-- whether two values of one field are alike, part by part
unfoldable mutual
  pub alike : Js → Js → Bool
  alike undefined undefined = true
  alike null null = true
  alike (bool a) (bool b) = if a then b else not b
  alike nan nan = true
  alike (num n) (num m) = eqb n m
  alike (str s) (str t) = s == t
  alike (arr vs) (arr ws) = alike_items vs ws
  alike (obj fs) (obj gs) = alike_fields fs gs
  alike _ _ = false

  pub alike_items : Items → Items → Bool
  alike_items nil nil = true
  alike_items (item v vs) (item w ws) = alike v w && alike_items vs ws
  alike_items _ _ = false

  pub alike_fields : Fields → Fields → Bool
  alike_fields end end = true
  alike_fields (field k v fs) (field j w gs) = k == j && alike v w && alike_fields fs gs
  alike_fields _ _ = false

abbrev pub is_nan : Js → Bool
is_nan nan = true
is_nan _ = false

-- a === b, for two values of one field
unfoldable pub same_entry : Entry → Entry → Bool
same_entry (js a) (js b) = alike a b && not (is_nan a)
same_entry _ _ = false

abbrev pub is_file : Entry → Bool
is_file (file mime size) = true
is_file (js v) = false

-- hasFormChanged()
unfoldable pub has_form_changed : Info → Bool
has_form_changed p =
    if not p.loaded
    then false
    else is_file (field_of p.person "profile_image")
      || any (λ k. not (same_entry (field_of p.person k) (field_of p.original k)))
          (keys_of p.person)

abbrev find_item : Js → List Item → Option Item
find_item v [] = none
find_item v (i ∷ is) = if same_entry (js i.value) (js v) then some i else find_item v is

abbrev label_or : Js → Option Item → Js
label_or v none = v
label_or v (some i) = i.label

-- getDisplayLabel(field)
unfoldable pub get_display_label : String → Info → Js
get_display_label name p =
    let v = value_in (field_of p.person name) in
    elim (keyed p.dropdowns name) [ none ↦ v | some items ↦ label_or v (find_item v items) ]

-- the button of the form, which is enabled only where the form has changed
unfoldable pub confirm_edit : Info → Info
confirm_edit p = if has_form_changed p then record p { show_confirm_modal = true } else record p {
  modal_message =
      "\u{647}\u{6cc}\u{686} \u{62a}\u{63a}\u{6cc}\u{6cc}\u{631}\u{6cc} \u{62f}\u{631} \u{627}\u{637}\u{644}\u{627}\u{639}\u{627}\u{62a} \u{627}\u{6cc}\u{62c}\u{627}\u{62f} \u{646}\u{634}\u{62f}\u{647} \u{627}\u{633}\u{62a}.";
}

-- onChange of the picture, with a file
unfoldable pub choose_picture : String → ℕ → Info → Info
choose_picture mime size p =
    if not (has mime jpg_types)
    then record p {
      modal_message =
          "\u{641}\u{631}\u{645}\u{62a} \u{641}\u{627}\u{6cc}\u{644} \u{628}\u{627}\u{6cc}\u{62f} JPG \u{6cc}\u{627} JPEG \u{628}\u{627}\u{634}\u{62f}.";
    }
    else if ltb (200 * 1024) size
    then record p {
      modal_message =
          "\u{62d}\u{62c}\u{645} \u{641}\u{627}\u{6cc}\u{644} \u{646}\u{628}\u{627}\u{6cc}\u{62f} \u{628}\u{6cc}\u{634}\u{62a}\u{631} \u{627}\u{632} ۲۰۰ \u{6a9}\u{6cc}\u{644}\u{648}\u{628}\u{627}\u{6cc}\u{62a} \u{628}\u{627}\u{634}\u{62f}.";
    }
    else record p { person = set_entry "profile_image" (file mime size) p.person }

-- the button beside a field, and the answer that leaves it as it is
unfoldable pub ask_edit : String → Info → Info
ask_edit name p = record p { pending_edit_field = some name }

unfoldable pub cancel_edit : Info → Info
cancel_edit p = record p { pending_edit_field = none }

unfoldable pub close_message : Info → Info
close_message p = record p { modal_message = "" }

unfoldable pub cancel_confirm : Info → Info
cancel_confirm p = record p { show_confirm_modal = false }
