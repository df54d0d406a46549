-- ===== src/Listing/Order.antt =====
-- MatchesSection.js: the order of the list, the newest competition first, and the effect that loads it.
-- `Date.parse` is a parameter; its none is NaN, and a date before 1970 is left out.
pub mod Laws
use Prim.Native.Nat.{compare, Ordering}
use tkd_chb.Base.{
  ℕ, String, ◌==◌, Bool, true, false, not, ◌&&◌, ◌||◌, Option, none, some, List, [], ◌∷◌, leb, ltb,
  eqb, if◌then◌else◌,
}
use tkd_chb.Base.Sort.{sort_by}
use tkd_chb.Base.Js.{Js, null, num, truthy, coalesce, or_else, get, is_array, elements, to_text}
use tkd_chb.Base.Exec.{Failure, Result, ok, err}
use tkd_chb.Net.{Server, World}
use tkd_chb.Api.Endpoints.{get_competitions_for_role}
use tkd_chb.Listing.Matches.{any_club_like}

-- the text that the time of a competition is read from
unfoldable pub time_text : Js → Js
time_text x = or_else (get x "created_at") (
    or_else (get x "competition_date")
      (or_else (get x "start_date") (or_else (get x "event_date") null)))

-- getTime(x), with none for -Infinity
unfoldable pub get_time : (String → Option ℕ) → Js → Option ℕ
get_time parse x = if truthy (time_text x) then parse (to_text (time_text x)) else none

abbrev as_number : Js → ℕ
as_number (num n) = n
as_number _ = 0

-- x?.id ?? 0, for an id that is a number
unfoldable pub id_of : Js → ℕ
id_of x = as_number (coalesce (get x "id") (num 0))

-- the order on times, with none before all others
abbrev pub time_before : Option ℕ → Option ℕ → Bool
time_before none none = false
time_before none (some t) = true
time_before (some s) none = false
time_before (some s) (some t) = ltb s t

-- whether the comparator lets `a` stand before `b`: it is not positive
unfoldable pub stands_before : (String → Option ℕ) → Js → Js → Bool
stands_before parse a b =
    let ta = get_time parse a in
    let tb = get_time parse b in
    time_before tb ta || not (time_before ta tb) && leb (id_of b) (id_of a)

pub record Loaded : Type 0 where
  pub matches : List Js
  pub loading : Bool
  pub error : String

abbrev is_none : List Js → Bool
is_none [] = true
is_none (_ ∷ _) = false

abbrev is_401 : Option ℕ → Bool
is_401 none = false
is_401 (some n) = eqb n 401

abbrev loaded_error : Failure → String
loaded_error e =
    if is_401 e.status
    then "\u{627}\u{628}\u{62a}\u{62f}\u{627} \u{648}\u{627}\u{631}\u{62f} \u{62d}\u{633}\u{627}\u{628} \u{634}\u{648}\u{6cc}\u{62f}."
    else if e.message == ""
    then "\u{62e}\u{637}\u{627} \u{62f}\u{631} \u{62f}\u{631}\u{6cc}\u{627}\u{641}\u{62a} \u{645}\u{633}\u{627}\u{628}\u{642}\u{627}\u{62a}"
    else e.message

unfoldable pub received_matches : (String → Option ℕ) → List String → Result (List Js) → Loaded
received_matches parse roles (ok found) = record {
  matches = sort_by (stands_before parse) found;
  loading = false;
  error =
      if is_none found && any_club_like roles
      then "\u{645}\u{633}\u{627}\u{628}\u{642}\u{647}\u{200c}\u{627}\u{6cc} \u{628}\u{631}\u{627}\u{6cc} \u{646}\u{645}\u{627}\u{6cc}\u{634} \u{67e}\u{6cc}\u{62f}\u{627} \u{646}\u{634}\u{62f}."
      else "";
}
received_matches parse roles (err e) = record {
  matches = [];
  loading = false;
  error = loaded_error e;
}

-- the effect on [roles, rolePath]; the client ignores the role that it is given
unfoldable pub load_matches :
    Server → String → (String → Option ℕ) → List String → World → Loaded × World
load_matches server base parse roles w =
    let (r, w') = get_competitions_for_role server base w in (received_matches parse roles r, w')
