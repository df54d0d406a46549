-- ===== src/Bracket/Match.antt =====
-- CompetitionBracket.jsx: the matches of a draw, their numbers, their rounds and their order.
-- The fields are those that the component reads, at the types that the API gives them; a field that
-- may be missing is an option. `number_fields k` is `m[k]` for the keys of `getMatchNumber`.
pub mod Laws
use tkd_chb.Base.{
  ℕ, ◌+◌, String, ◌==◌, Bool, not, Option, none, some, List, [], ◌∷◌, ◌++◌, leb, eqb, if◌then◌else◌,
}
use tkd_chb.Base.Sort.{sort_by}
use tkd_chb.Base.Text.{trim}
use tkd_chb.Base.Js.{Js, str, truthy, is_nullish}
use tkd_chb.Bracket.Board.{rest_word}

pub record Match : Type 0 where
  pub player_a_name : Option String
  pub a_name : Option String
  pub player_a : Option String
  pub player_b_name : Option String
  pub b_name : Option String
  pub player_b : Option String
  pub is_bye : Bool
  pub round_no : Option ℕ
  pub round : Option ℕ
  pub stage : Option ℕ
  pub slot_a : Option ℕ
  pub order_in_round : Option ℕ
  pub index : Option ℕ
  pub number_fields : String → Js
  pub fallback_no : Option ℕ

-- x ?? y
abbrev pub first_of_two {ℓ} : {A : Type ℓ} → Option A → Option A → Option A
first_of_two none y = y
first_of_two (some x) y = some x

-- x ?? d
abbrev pub value_or {ℓ} : {A : Type ℓ} → Option A → A → A
value_or none d = d
value_or (some x) d = x

unfoldable pub name_a : Match → String
name_a m = value_or (first_of_two m.player_a_name (first_of_two m.a_name m.player_a)) ""

unfoldable pub name_b : Match → String
name_b m = value_or (first_of_two m.player_b_name (first_of_two m.b_name m.player_b)) ""

-- Number(m.round_no ?? m.round ?? m.stage ?? 1)
unfoldable pub round_of : Match → ℕ
round_of m = value_or (first_of_two m.round_no (first_of_two m.round m.stage)) 1

-- a.slot_a ?? a.order_in_round ?? a.index ?? 0
unfoldable pub order_key : Match → ℕ
order_key m = value_or (first_of_two m.slot_a (first_of_two m.order_in_round m.index)) 0

abbrev number_keys : List String
number_keys =
    "match_number" ∷ "number" ∷ "match_no" ∷ "no" ∷ "bout_no" ∷ "number_on_mat" ∷ "order_on_mat"
    ∷ "seq_on_mat" ∷ "seq_no" ∷ "seq" ∷ "order" ∷ "index" ∷ "bracket_no" ∷ []

-- not undefined, not null and not ""
abbrev is_given : Js → Bool
is_given (str s) = not (s == "")
is_given v = not (is_nullish v)

first_number : (String → Js) → List String → Js
first_number fields [] = str ""
first_number fields (k ∷ ks) =
    let rest = first_number fields ks in if is_given (fields k) then fields k else rest

-- getMatchNumber(m)
unfoldable pub get_match_number : Match → Js
unfolding first_number
get_match_number m = first_number m.number_fields number_keys

-- byRound.get(r).push(m), a new round at the end of the map
unfoldable pub add_to_round : ℕ → Match → List (ℕ × List Match) → List (ℕ × List Match)
add_to_round r m [] = (r, m ∷ []) ∷ []
add_to_round r m ((q, ms) ∷ rounds) =
    let rest = add_to_round r m rounds in
    if eqb q r then (q, ms ++ m ∷ []) ∷ rounds else (q, ms) ∷ rest

unfoldable pub by_round_from : List (ℕ × List Match) → List Match → List (ℕ × List Match)
by_round_from rounds [] = rounds
by_round_from rounds (m ∷ ms) = by_round_from (add_to_round (round_of m) m rounds) ms

unfoldable pub by_round : List Match → List (ℕ × List Match)
by_round ms = by_round_from [] ms

-- whether the comparator does not put `m` after `n`
abbrev pub key_before : Match → Match → Bool
key_before m n = leb (order_key m) (order_key n)

-- arr.sort(…) by the key
unfoldable pub sort_matches : List Match → List Match
sort_matches ms = sort_by key_before ms

-- arr.forEach(m => { if (!getMatchNumber(m)) m.__fallback_no__ = local++; })
unfoldable pub number_rest : ℕ → List Match → List Match
number_rest local [] = []
number_rest local (m ∷ ms) =
    let numbered = truthy (get_match_number m) in
    let rest = number_rest (if numbered then local else local + 1) ms in
    if numbered then m ∷ rest else record m { fallback_no = some local } ∷ rest

-- (v || "").trim(), where it is a player
unfoldable pub player_name : Option String → Option String
player_name v =
    let s = trim (value_or v "") in
    if s == "" then none else if s == rest_word then none else some s

abbrev add_name : Option String → List String → List String
add_name none names = names
add_name (some s) [] = s ∷ []
add_name (some s) (t ∷ names) =
    let rest = add_name (some s) names in if t == s then t ∷ names else t ∷ rest

unfoldable pub names_from : List String → List Match → List String
names_from names [] = names
names_from names (m ∷ ms) =
    names_from
      (add_name (player_name m.player_b_name) (add_name (player_name m.player_a_name) names)) ms

abbrev only_name : List String → String
only_name (s ∷ []) = s
only_name _ = ""

-- detectSinglePlayerName(ms)
unfoldable pub detect_single_player_name : List Match → String
unfolding names_from player_name
detect_single_player_name ms = only_name (names_from [] ms)
