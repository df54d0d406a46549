-- ===== src/Register/Submit.antt =====
-- What the three pages of registration share when they submit: the fields of the FormData, and what is
-- shown of a reply. `JSON.stringify` and the sending of the FormData, which is the browser's, are
-- parameters; a body that is no JSON is none.
use tkd_chb.Base.{String, ◌==◌, Bool, true, false, none, some, List, [], ◌∷◌, if◌then◌else◌}
use tkd_chb.Base.Js.{Js, is_object, is_nullish, to_text}
use tkd_chb.Base.Exec.{Result}
use tkd_chb.Net.{Response, World}
use tkd_chb.Storage.{Storage, get_item, set_item, remove_item}
use tkd_chb.Register.{Entry, js, file, Form, text}

abbrev pub Send : Type 0
Send = List (String × Entry) → World → Result Response × World

-- form.append(key, value), whose value is written as a text unless it is a file
unfoldable pub form_entry : (Js → String) → Entry → Entry
form_entry stringify (file mime size) = file mime size
form_entry stringify (js v) = text (if is_object v then stringify v else to_text v)

-- Object.entries(formData).forEach(…)
unfoldable pub form_entries : (Js → String) → Form → List (String × Entry)
form_entries stringify [] = []
form_entries stringify ((k, v) ∷ d) = (k, form_entry stringify v) ∷ form_entries stringify d

abbrev pub is_missing : Entry → Bool
is_missing (js v) = is_nullish v
is_missing (file mime size) = false

-- the same, but for fields that are undefined or null
unfoldable pub given_entries : (Js → String) → Form → List (String × Entry)
given_entries stringify [] = []
given_entries stringify ((k, v) ∷ d) =
    let rest = given_entries stringify d in
    if is_missing v then rest else (k, form_entry stringify v) ∷ rest

pub record Outcome : Type 0 where
  pub success_message : String
  pub show_success : Bool
  pub messages : List String

abbrev pub no_outcome : Outcome
no_outcome = record { success_message = ""; show_success = false; messages = [] }

abbrev pub failed_with : List String → Outcome
failed_with ms = record no_outcome { messages = ms }

abbrev pub succeeded : String → Outcome
succeeded message = record { success_message = message; show_success = true; messages = [] }

-- localStorage.removeItem('verifiedPhone')
abbrev pub forget_phone : World → World
forget_phone w = record w { storage = remove_item "verifiedPhone" w.storage }

-- the phone that the page starts with: the one of the location, else the one that was verified
unfoldable pub page_phone : String → Storage → String
page_phone from_state s =
    if from_state == ""
    then elim (get_item s "verifiedPhone") [ none ↦ "" | some p ↦ p ]
    else from_state

-- the effect on the phone of the location
unfoldable pub remember_phone : String → World → World
remember_phone from_state w =
    if from_state == ""
    then w
    else record w { storage = set_item "verifiedPhone" from_state w.storage }
