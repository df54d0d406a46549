-- ===== src/Panel.antt =====
-- The panels of a coach and of a club (components/Login/panel/maincontentpanel): the clubs of a coach,
-- the coaches of a club, and the requests that a coach answers. Ids are numbers, as the server sends
-- them. A missing entry of localStorage stands in a text as "null".
pub mod Clubs
pub mod Coaches
pub mod Requests
mod Examples
use tkd_chb.Base.{
  ℕ, String, Bool, true, false, not, ◌||◌, Option, none, some, List, [], ◌∷◌, eqb, if◌then◌else◌,
}
use tkd_chb.Base.Js.{Js, num, get}
use tkd_chb.Storage.{Storage, get_item}
use tkd_chb.Session.{token_key}

abbrev or_null : Option String → String
or_null none = "null"
or_null (some s) = s

-- localStorage.getItem(`${role}_token`)
unfoldable pub stored_token : Storage → Option String
stored_token s = get_item s (token_key (or_null (get_item s "user_role")))

-- the token as a header has it
unfoldable pub panel_token : Storage → String
unfolding stored_token
panel_token s = or_null (stored_token s)

abbrev number : Js → ℕ
number (num n) = n
number _ = 0

-- x.id
abbrev pub id_number : Js → ℕ
id_number x = number (get x "id")

-- ids.includes(id)
abbrev pub has_id : ℕ → List ℕ → Bool
has_id n [] = false
has_id n (m ∷ ms) = eqb m n || has_id n ms

-- ids.filter((m) => m !== n)
unfoldable pub without_id : ℕ → List ℕ → List ℕ
without_id n [] = []
without_id n (m ∷ ms) = let rest = without_id n ms in if eqb m n then rest else m ∷ rest

-- xs.filter(p)
unfoldable pub keep : (Js → Bool) → List Js → List Js
keep p [] = []
keep p (x ∷ xs) = let rest = keep p xs in if p x then x ∷ rest else rest
