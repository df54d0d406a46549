-- ===== src/Details/Locked.antt =====
-- CompetitionDetails.jsx: the profile that the form shows and locks, read from whatever shape the
-- server gives it.
pub mod Laws
use Prim.Native.Char.{code}
use tkd_chb.Base.{
  String, ◌==◌, Bool, true, false, not, ◌&&◌, ◌||◌, List, [], ◌∷◌, map, any, eqb, if◌then◌else◌,
}
use tkd_chb.Base.Text.{to_lower_case, trim, includes, filter_chars, map_chars, is_space}
use tkd_chb.Base.Js.{
  Js, Items, Fields, nil, item, end, field, null, str, obj, arr, truthy, is_nullish, is_object,
  or_else, get, object, entries, of_entries, to_text,
}
use tkd_chb.Details.Eligibility.{persian_letter}

abbrev pub is_blank_text : Js → Bool
is_blank_text (str s) = s == ""
is_blank_text _ = false

-- pickFrom(o, keys); `!o` has no keys, and neither has a text or a number
unfoldable pub pick_from : Js → List String → String
pick_from o [] = ""
pick_from o (k ∷ ks) =
    let rest = pick_from o ks in
    let v = get o k in if not (is_nullish v) && not (is_blank_text v) then to_text v else rest

unfoldable pub pick_first : List Js → List String → String
pick_first [] keys = ""
pick_first (s ∷ ss) keys =
    let v = pick_from s keys in let rest = pick_first ss keys in if v == "" then rest else v

-- lower case, without joiners, blanks and hyphens, with the Persian letters
unfoldable pub clean_key : String → String
clean_key k = map_chars persian_letter (
    filter_chars (λ c. not (eqb (code c) 0x200c || is_space c || eqb (code c) 45))
      (to_lower_case k))

-- isNatKey; the test for the Arabic letter never holds of a cleaned key
unfoldable pub is_nat_key : String → Bool
is_nat_key key =
    includes key "nationalid"
    || includes key "nationalcode"
    || includes key "nationalidnumber"
    || includes key "mellicode"
    || includes key "codemelli"
    || includes key "melli" && includes key "code"
    || key == "nid"
    || key == "ssn"
    || includes key "\u{6a9}\u{62f}\u{645}\u{644}\u{6cc}"
    || includes key "\u{6a9}\u{62f}" && includes key "\u{645}\u{644}\u{6cc}"

abbrev pub is_filled : Js → Bool
is_filled v = not (is_nullish v) && not (trim (to_text v) == "")

-- findNationalIdDeep(obj); the keys of an array are its positions, and none of them is such a key
unfoldable mutual
  pub find_national_id_deep : Js → String
  find_national_id_deep (obj fs) = find_in_fields fs
  find_national_id_deep (arr vs) = find_in_items vs
  find_national_id_deep _ = ""

  pub find_in_fields : Fields → String
  find_in_fields end = ""
  find_in_fields (field k v fs) =
      let inner = find_national_id_deep v in
      let rest = find_in_fields fs in
      if is_nat_key (clean_key k) && is_filled v
      then to_text v
      else if inner == ""
      then rest
      else inner

  pub find_in_items : Items → String
  find_in_items nil = ""
  find_in_items (item v vs) =
      let inner = find_national_id_deep v in
      let rest = find_in_items vs in if inner == "" then rest else inner

abbrev pub filter_truthy : List Js → List Js
filter_truthy [] = []
filter_truthy (v ∷ vs) = let rest = filter_truthy vs in if truthy v then v ∷ rest else rest

abbrev pub profile_sources : Js → List Js
profile_sources src =
    src
    ∷ filter_truthy (
        map (λ k. get src k)
          ("profile" ∷ "user" ∷ "player" ∷ "data" ∷ "me" ∷ "me_locked" ∷ "my_locked"
            ∷ "locked_profile" ∷ "my_profile" ∷ []))

abbrev or_text : String → String → String
or_text a b = if a == "" then b else a

unfoldable pub locked_entries : Js → List (String × String)
locked_entries src =
    let pick = pick_first (profile_sources src) in
    (
      "first_name",
      pick ("first_name" ∷ "firstName" ∷ "firstNameFa" ∷ "fname" ∷ "given_name" ∷ "name" ∷ []),
    )
    ∷ (
      "last_name",
      pick ("last_name" ∷ "lastName" ∷ "lastNameFa" ∷ "family" ∷ "family_name" ∷ "surname" ∷ []),
    )
    ∷ (
      "national_id",
      or_text
          (pick (
            "national_id" ∷ "nationalId" ∷ "nationalID" ∷ "national_code" ∷ "nationalCode"
            ∷ "code_melli" ∷ "melli_code" ∷ "melliCode" ∷ "codeMelli" ∷ "nid" ∷ "ssn" ∷ []))
          (find_national_id_deep src),
    )
    ∷ (
      "birth_date",
      pick (
          "birth_date_jalali_fa" ∷ "birth_date_jalali" ∷ "birthDateJalaliFa" ∷ "birthDateJalali"
          ∷ "birth_date" ∷ "birthDate" ∷ "dob" ∷ []),
    )
    ∷ ("belt", pick ("belt" ∷ "beltName" ∷ "belt_name" ∷ "belt_display" ∷ []))
    ∷ ("club", pick ("club" ∷ "club_name" ∷ "clubName" ∷ "academy" ∷ "academy_name" ∷ []))
    ∷ ("coach", pick ("coach" ∷ "coach_name" ∷ "coachName" ∷ "coach_full_name" ∷ []))
    ∷ []

abbrev pub text_fields : List (String × String) → Js
text_fields es = object (map (λ e. (e.0, str e.1)) es)

-- normalizeLockedProfile(src)
unfoldable pub normalize_locked_profile : Js → Js
normalize_locked_profile src =
    let es = locked_entries src in
    if truthy src && is_object src && any (λ e. not (trim e.1 == "")) es
    then text_fields es
    else null

-- out[k] = v
unfoldable pub set_field : String → Js → List (String × Js) → List (String × Js)
set_field k v [] = (k, v) ∷ []
set_field k v ((j, w) ∷ es) =
    let rest = set_field k v es in if j == k then (j, v) ∷ es else (j, w) ∷ rest

unfoldable pub merge_keys : Js → List String → List (String × Js) → List (String × Js)
merge_keys new [] out = out
merge_keys new (k ∷ ks) out =
    merge_keys new ks
      (if is_filled (get new k) then set_field k (str (to_text (get new k))) out else out)

abbrev pub merged_keys : List String
merged_keys =
    "first_name" ∷ "last_name" ∷ "national_id" ∷ "birth_date" ∷ "belt" ∷ "club" ∷ "coach" ∷ []

abbrev pub entries_of : Js → List (String × Js)
entries_of (obj fs) = entries fs
entries_of _ = []

-- mergeLockedProfiles(oldL, newL), where each is null or an object
unfoldable pub merge_locked_profiles : Js → Js → Js
merge_locked_profiles old new =
    if not (truthy old)
    then or_else new null
    else if not (truthy new)
    then old
    else object (merge_keys new merged_keys (entries_of old))

-- lockedFromCompetition(comp)
unfoldable pub locked_from_competition : Js → Js
locked_from_competition comp =
    if truthy comp
    then normalize_locked_profile (
        or_else (get comp "locked") (
          or_else (get comp "my_locked") (
            or_else (get comp "me_locked") (
              or_else (get comp "my_profile") (
                or_else (get comp "me")
                  (or_else (get comp "user") (or_else (get comp "player") null)))))))
    else null
