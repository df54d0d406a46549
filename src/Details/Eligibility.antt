-- ===== src/Details/Eligibility.antt =====
-- CompetitionDetails.jsx: the discipline of a competition, the genders and belts it admits, and
-- whether a player is eligible.
pub mod Laws
use tkd_chb.Base.{
  String, ◌==◌, Bool, true, false, not, ◌&&◌, ◌||◌, Option, none, some, List, [], ◌∷◌, map, eqb,
  any, if◌then◌else◌,
}
use tkd_chb.Base.Text.{to_lower_case, trim, includes, filter_chars, map_chars}
use Prim.Native.Char.{Char, code}
use tkd_chb.Base.Text.{nth_char}
use tkd_chb.Base.Js.{
  Js, undefined, null, bool, str, truthy, is_nullish, or_else, get, is_array, elements, to_text,
}

-- replace(/\u{64a}/g, "\u{6cc}").replace(/\u{643}/g, "\u{6a9}")
unfoldable pub persian_letter : Char → Char
persian_letter c =
    if eqb (code c) 0x64a
    then nth_char "\u{6cc}" 0
    else if eqb (code c) 0x643
    then nth_char "\u{6a9}" 0
    else c

-- without zero-width joiners and hyphens
unfoldable pub gender_text : String → String
gender_text s =
    filter_chars (λ c. not (eqb (code c) 0x200c || eqb (code c) 45))
      (map_chars persian_letter (to_lower_case (trim s)))

abbrev pub one_of : String → List String → Bool
one_of s ts = any (λ t. s == t) ts

-- _GENDER_MAP; its keys with the Arabic letters never meet a normalized text
unfoldable pub gender_map : String → Option String
gender_map t =
    if one_of t (
      "male" ∷ "m" ∷ "man" ∷ "\u{622}\u{642}\u{627}" ∷ "\u{627}\u{642}\u{627}"
      ∷ "\u{645}\u{631}\u{62f}" ∷ "\u{622}\u{642}\u{627}\u{6cc}\u{627}\u{646}"
      ∷ "\u{627}\u{642}\u{627}\u{6cc}\u{627}\u{646}" ∷ [])
    then some "male"
    else if one_of t (
        "female" ∷ "f" ∷ "woman" ∷ "\u{632}\u{646}" ∷ "\u{62e}\u{627}\u{646}\u{645}"
        ∷ "\u{628}\u{627}\u{646}\u{648}" ∷ "\u{628}\u{627}\u{646}\u{648}\u{627}\u{646}"
        ∷ "\u{62e}\u{627}\u{646}\u{645}\u{647}\u{627}" ∷ [])
    then some "female"
    else if one_of t ("both" ∷ "\u{645}\u{62e}\u{62a}\u{644}\u{637}" ∷ "mix" ∷ "mixed" ∷ [])
    then some "both"
    else none

abbrev pub text_or : Option String → String → String
text_or none d = d
text_or (some s) d = s

-- normGender(v), with "" for null: every caller tests it for truth
unfoldable pub norm_gender : Js → String
norm_gender v =
    let t = gender_text (to_text v) in if is_nullish v then "" else text_or (gender_map t) t

abbrev pub trimmed_texts : List Js → List String
trimmed_texts vs = map (λ v. trim (to_text v)) vs

unfoldable pub group_belts : List Js → List String
group_belts [] = []
group_belts (b ∷ bs) =
    let rest = group_belts bs in
    if truthy (get b "name") then trim (to_text (get b "name")) ∷ rest else rest

unfoldable pub groups_belts : List Js → List String
groups_belts [] = []
groups_belts (g ∷ gs) = add_all (group_belts (elements (get g "belts"))) (groups_belts gs)
  where
    add_all : List String → List String → List String
    add_all [] ts = ts
    add_all (s ∷ ss) ts = s ∷ add_all ss ts

abbrev pub is_empty {ℓ} : {A : Type ℓ} → List A → Bool
is_empty [] = true
is_empty (x ∷ xs) = false

-- Array.isArray(v) && v.length
abbrev pub is_full_array : Js → Bool
is_full_array v = is_array v && not (is_empty (elements v))

abbrev pub some_belts : List String → Option (List String)
some_belts [] = none
some_belts (s ∷ ss) = some (s ∷ ss)

-- allowedBeltsFromCompetition(c); the set is a list, whose order and repetitions do not matter
unfoldable pub allowed_belts : Js → Option (List String)
allowed_belts c =
    if is_full_array (get c "allowed_belts")
    then some (trimmed_texts (elements (get c "allowed_belts")))
    else if is_full_array (get c "belt_names")
    then some (trimmed_texts (elements (get c "belt_names")))
    else if is_full_array (get c "belts")
    then some (trimmed_texts (elements (get c "belts")))
    else if is_array (get c "belt_groups")
    then some_belts (groups_belts (elements (get c "belt_groups")))
    else none

pub record Player : Type 0 where
  pub belt : String
  pub gender : String

abbrev pub has_player : Js → Bool
has_player o =
    truthy o
    && (truthy (get o "belt")
        || truthy (get o "beltName")
        || truthy (get o "gender")
        || truthy (get o "gender_display"))

abbrev pub player_of : Js → Player
player_of o = record {
  belt =
      to_text (
        or_else (get o "belt") (or_else (get o "beltName") (or_else (get o "belt_name") (str ""))));
  gender = norm_gender (or_else (get o "gender") (get o "gender_display"));
}

unfoldable pub first_player : List Js → Player
first_player [] = record { belt = ""; gender = "" }
first_player (o ∷ os) = let rest = first_player os in if has_player o then player_of o else rest

-- extractPlayerFromCompOrForm(comp, lockedFromForm)
unfoldable pub extract_player : Js → Js → Player
extract_player comp locked = first_player (
    locked
    ∷ get comp "me_locked"
    ∷ get comp "my_locked"
    ∷ get comp "locked"
    ∷ get comp "my_profile"
    ∷ get comp "me"
    ∷ get comp "user"
    ∷ get comp "player"
    ∷ [])

unfoldable pub competition_gender : Js → String
competition_gender comp =
    let g = norm_gender (or_else (get comp "gender") (get comp "gender_display")) in
    if g == "" then "both" else g

abbrev pub gender_ok : Js → Player → Bool
gender_ok comp player =
    competition_gender comp == "both"
    || not (player.gender == "") && competition_gender comp == player.gender

abbrev pub belt_in : Option (List String) → String → Bool
belt_in none belt = true
belt_in (some belts) belt = not (belt == "") && one_of (trim belt) belts

abbrev pub judged : Js → Player → Option Bool
judged comp player =
    if player.gender == "" && player.belt == ""
    then none
    else some (gender_ok comp player && belt_in (allowed_belts comp) player.belt)

abbrev pub told_or : Js → Option Bool → Option Bool
told_or (bool b) r = some b
told_or _ r = r

-- The memo [eligibility]: its `ok`, with none for null. `locked` is `reg.locked || regP.locked`.
unfoldable pub eligibility : Js → Js → Option Bool
eligibility comp locked =
    told_or (get comp "user_eligible_self") (judged comp (extract_player comp locked))

pub data Discipline : Type 0 where
  kyorugi poomsae : Discipline

-- inferDiscipline(comp)
unfoldable pub infer_discipline : Js → Discipline
infer_discipline comp =
    let k = to_lower_case (trim (to_text (or_else (get comp "kind") (str "")))) in
    let s = to_lower_case (
      trim (
        to_text (
          or_else (get comp "style_display")
            (or_else (get comp "style") (or_else (get comp "type") (str "")))))) in
    if k == "poomsae"
    then poomsae
    else if k == "kyorugi"
    then kyorugi
    else if includes s "\u{67e}\u{648}\u{645}\u{633}\u{647}" || includes s "poom"
    then poomsae
    else kyorugi
