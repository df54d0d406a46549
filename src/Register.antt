-- ===== src/Register.antt =====
-- The forms that register a player, a coach and a club (pages/Register*Page.jsx and the steps in
-- components/Register). The data of a form are its fields in the order in which they were set first;
-- a picture is a file with its type and size.
pub mod Submit
pub mod Person
pub mod Place
pub mod Player
pub mod Coach
pub mod Club
pub mod Phone
pub mod Wizard
pub mod Laws
mod Examples
use Prim.Native.Char.{Char, code}
use Prim.Native.String.{◌++◌ as ◌<>◌}
use Prim.Native.String
use mathlib.Core.Option
use tkd_chb.Base.{
  ℕ, zero, suc, String, ◌==◌, Bool, true, false, not, ◌&&◌, ◌||◌, Option, none, some, List, [], ◌∷◌,
  ◌++◌, any, leb, eqb, if◌then◌else◌,
}
use tkd_chb.Base.Text.{every_char, is_space, pieces, trim, slice_to, length_text}
use tkd_chb.Base.Digits.{is_digit}
use tkd_chb.Base.Js.{Js, undefined, str, truthy, to_text}

pub data Entry : Type 0 where
  js : Js → Entry
  file : String → ℕ → Entry

abbrev pub Form : Type 0
Form = List (String × Entry)

-- data[k]
abbrev pub field_of : Form → String → Entry
field_of [] k = js undefined
field_of ((j, v) ∷ d) k = if j == k then v else field_of d k

-- { ...data, [k]: v }
unfoldable pub set_entry : String → Entry → Form → Form
set_entry k v [] = (k, v) ∷ []
set_entry k v ((j, w) ∷ d) =
    let rest = set_entry k v d in if j == k then (j, v) ∷ d else (j, w) ∷ rest

-- handleDataChange(newData)
unfoldable pub handle_data_change : Form → Form → Form
handle_data_change [] d = d
handle_data_change ((k, v) ∷ new) d = handle_data_change new (set_entry k v d)

-- Boolean(data[k])
abbrev pub is_given : Entry → Bool
is_given (js v) = truthy v
is_given (file mime size) = true

-- data[k] || "", for a field that is a text
abbrev pub text_in : Entry → String
text_in (js v) = if truthy v then to_text v else ""
text_in (file mime size) = ""

abbrev pub text : String → Entry
text s = js (str s)

abbrev pub has : String → List String → Bool
has k ks = any (λ j. j == k) ks

-- if (!xs.includes(k)) xs.push(k)
unfoldable pub push_once : String → List String → List String
push_once k ks = if has k ks then ks else ks ++ k ∷ []

-- /^…+$/ for a class of characters
abbrev pub all_of : (Char → Bool) → String → Bool
all_of p s = not (s == "") && every_char p s

abbrev pub is_arabic : Char → Bool
is_arabic c = leb 0x600 (code c) && leb (code c) 0x6ff

-- /^[\u0600-\u06FF\s]+$/
unfoldable pub is_persian : String → Bool
is_persian s = all_of (λ c. is_arabic c || is_space c) s

-- /^\d+$/
unfoldable pub is_numeric : String → Bool
is_numeric s = all_of is_digit s

-- /^[\d/]+$/
unfoldable pub is_slashed_number : String → Bool
is_slashed_number s = all_of (λ c. is_digit c || eqb (code c) 47) s

-- s.substring(n)
abbrev pub drop_text : ℕ → String → String
drop_text zero s = s
drop_text (suc n) String.[] = ""
drop_text (suc n) (String.◌∷◌ c s) = drop_text n s

-- the value of the first cookie with the name, before it is decoded
abbrev cookie_in : String → List String → Option String
cookie_in name [] = none
cookie_in name (c ∷ cs) =
    let rest = cookie_in name cs in
    let cookie = trim c in
    if slice_to (length_text (name <> "=")) cookie == name <> "="
    then some (drop_text (length_text (name <> "=")) cookie)
    else rest

-- getCookie(name), with `decodeURIComponent` and `document.cookie`
unfoldable pub get_cookie : (String → String) → String → String → Option String
get_cookie decode cookies name =
    Option.map decode (cookie_in name (pieces (λ c. eqb (code c) 59) cookies))
